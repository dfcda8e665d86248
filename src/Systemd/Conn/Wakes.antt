-- ===== src/Systemd/Conn/Wakes.antt =====
-- A change of a watched unit wakes the reader.
use systemd2mqtt.Base.{
  ◌≡◌, refl, ◌∙◌, Bool, true, false, ◌||◌, Bool-cases, Option, none, some, List, [], ◌∷◌, any, sym,
  ap, subst, ◌⊎◌, inl, inr, In, here, there, if◌then◌else◌, ◌==◌, length, arith,
}
use systemd2mqtt.Base.Text.{Text, text_eq, contains, contains-In}
use systemd2mqtt.Base.Assoc.{lookup, insert, lookup-insert}
use systemd2mqtt.Systemd.Unit.{Error}
use systemd2mqtt.Systemd.Statuses.{RawStatus, resolve_aliases, alias_from}
use systemd2mqtt.Systemd.Conn.{
  Conn, Event, updated, update_dropped, stop_seen, wake_taken, close_called, pump_update, close,
  step, run, watched, watch_from, aliases_of, new_conn, after_subscribe, after_connect, dial,
  Answers,
}

-- An event that the reader is to hear of: a change of a watched unit, or one that was dropped.
abbrev pub is_news : List Text → Event → Bool
is_news watch (updated (some name)) = contains watch name
is_news watch (updated none) = false
is_news watch update_dropped = true
is_news watch stop_seen = false
is_news watch wake_taken = false
is_news watch close_called = false

-- There is news that the reader has not taken, while no `Close` has come.
unfoldable pub unheard : List Text → List Event → Bool → Bool
unheard watch [] b = b
unheard watch (wake_taken ∷ es) b = unheard watch es false
unheard watch (e ∷ es) b = unheard watch es (b || is_news watch e)

abbrev pub is_close : Event → Bool
is_close close_called = true
is_close _ = false

abbrev is_taken : Event → Bool
is_taken wake_taken = true
is_taken _ = false

-- Any other event adds its news to the hint.
step-is_news :
    (c : Conn) (e : Event)
    → c.stop ≡ false
    → c.done ≡ false
    → is_close e ≡ false
    → is_taken e ≡ false
    → step c e ≡ record c { wake = c.wake || is_news c.watch e }
unfolding step pump_update
step-is_news c (updated none) s d h k = ground arith
step-is_news c (updated (some name)) s d h k = ground arith
step-is_news c update_dropped s d h k = ground arith
step-is_news c stop_seen s d h k = ground arith
step-is_news c wake_taken s d h k = cc
step-is_news c close_called s d h k = cc

-- The hint in the channel says exactly whether there is news since the reader last took one, over
-- any events of a connection that is not closed: no change of a watched unit is lost, however many
-- come at once, and the reader is not woken for nothing.
pub run-unheard :
    (es : List Event) (c : Conn)
    → c.stop ≡ false
    → c.done ≡ false
    → any is_close es ≡ false
    → (run c es).wake ≡ unheard c.watch es c.wake
unfolding run step pump_update close unheard
run-unheard [] c s d h = refl
run-unheard (wake_taken ∷ es) c s d h = run-unheard es (record c { wake = false }) s d h
run-unheard (close_called ∷ es) c s d h = cc
run-unheard (stop_seen ∷ es) c s d h =
    ap (λ x. (run x es).wake) (step-is_news c stop_seen s d refl refl)
    ∙ run-unheard es (record c { wake = c.wake || is_news c.watch stop_seen }) s d h
run-unheard (update_dropped ∷ es) c s d h =
    ap (λ x. (run x es).wake) (step-is_news c update_dropped s d refl refl)
    ∙ run-unheard es (record c { wake = c.wake || is_news c.watch update_dropped }) s d h
run-unheard (updated u ∷ es) c s d h =
    ap (λ x. (run x es).wake) (step-is_news c (updated u) s d refl refl)
    ∙ run-unheard es (record c { wake = c.wake || is_news c.watch (updated u) }) s d h

In-watch_from :
    {n : Text} (ns : List Text) (raw : List RawStatus) (w : List Text)
    → In n w
    → In n (watch_from ns raw w)
unfolding watch_from
In-watch_from [] raw w m = m
In-watch_from (k ∷ ns) [] w m = m
In-watch_from (k ∷ ns) (r ∷ rs) w m = elim (Bool-cases (text_eq r.name [] || text_eq r.name k)) [
  | inl same ↦ rw same (In-watch_from ns rs w m)
  | inr other ↦ rw other (In-watch_from ns rs (r.name ∷ w) (there m))
]

-- Every alias that `resolveAliases` records is watched under its primary id.
alias_from-In :
    (ns : List Text) (raw : List RawStatus) (w : List Text) (m : List (Text × Text))
    (n primary : Text)
    → (lookup n m ≡ some primary → In primary w)
    → lookup n (alias_from ns raw m) ≡ some primary
    → In primary (watch_from ns raw w)
unfolding alias_from watch_from
alias_from-In [] raw w m n primary f h = f h
alias_from-In (k ∷ ns) [] w m n primary f h = f h
alias_from-In (k ∷ ns) (r ∷ rs) w m n primary f h =
    elim (Bool-cases (text_eq r.name [] || text_eq r.name k)) [
      | inl same ↦ rw same (
          alias_from-In ns rs w m n primary f (
            subst
              (λ b. lookup n (alias_from ns rs (if b then m else insert k r.name m)) ≡ some primary)
              same h))
      | inr other ↦ rw other (
          alias_from-In ns rs (r.name ∷ w) (insert k r.name m) n primary (grown k r w m n primary f)
            (subst
              (λ b. lookup n (alias_from ns rs (if b then m else insert k r.name m)) ≡ some primary)
              other h))
    ]
  where
    grown :
        (k : Text) (r : RawStatus) (w : List Text) (m : List (Text × Text)) (n primary : Text)
        → (lookup n m ≡ some primary → In primary w)
        → lookup n (insert k r.name m) ≡ some primary
        → In primary (r.name ∷ w)
    grown k r w m n primary f h = elim (Bool-cases (text_eq k n)) [
      | inl same ↦ here (ground (arith, lookup-insert k n r.name m))
      | inr other ↦ there (f (ground (arith, lookup-insert k n r.name m)))
    ]

subscribe_inv :
    (scope : Text) (names : List Text) (a : Answers) (o : Option Error) (c : Conn)
    → after_subscribe scope names a o ≡ inr c
    → c ≡ new_conn scope names a.raw
subscribe_inv scope names a none c h = cc
subscribe_inv scope names a (some e) c h = ground arith

connect_inv :
    (scope : Text) (names : List Text) (a : Answers) (o : Option Error) (c : Conn)
    → after_connect scope names a o ≡ inr c
    → c ≡ new_conn scope names a.raw
connect_inv scope names a none c h = subscribe_inv scope names a a.subscribe_error c h
connect_inv scope names a (some e) c h = cc

dial_inv :
    (scope : Text) (names : List Text) (a : Answers) (c : Conn)
    → dial scope names a ≡ inr c
    → c ≡ new_conn scope names a.raw
unfolding dial
dial_inv scope names a c h = ground (arith, connect_inv scope names a a.connect_error c)

watched-In :
    (names : List Text) (raw : Option (List RawStatus)) (n : Text)
    → (In n names) ⊎ ((k : Text) × (lookup k (aliases_of names raw) ≡ some n))
    → In n (watched names raw)
unfolding watched resolve_aliases lookup
watched-In names none n (inl m) = m
watched-In names none n (inr (k, h)) = cc
watched-In names (some raw) n m = elim (Bool-cases (length raw == length names)) [
  | inl all ↦ rw all (elim m [
    | inl i ↦ In-watch_from names raw names i
    | inr (k, h) ↦
        alias_from-In names raw names [] k n (λ e. cc)
          (subst (λ b. lookup k (if b then alias_from names raw [] else []) ≡ some n) all h)
  ])
  | inr few ↦ rw few (elim m [
    | inl i ↦ i
    | inr (k, h) ↦ absurd (
        none-some
          (subst (λ b. lookup k (if b then alias_from names raw [] else []) ≡ some n) few h))
  ])
]
  where
    none-some : {x : Text} → none ≡ some x → ⊥
    none-some h = cc

-- On a connection that `Dial` made, a change of a watched name, or of the primary id that one of
-- the names was found to be an alias of, leaves a hint for the reader.
pub dial-wakes :
    (scope : Text) (names : List Text) (a : Answers) (c : Conn) (n : Text)
    → dial scope names a ≡ inr c
    → (In n names) ⊎ ((k : Text) × (lookup k c.aliases ≡ some n))
    → (step c (updated (some n))).wake ≡ true
unfolding step pump_update
dial-wakes scope names a c n h m =
    let e = dial_inv scope names a c h in
    let k = contains-In c.watch n (
      subst (λ d. In n (d.watch)) (sym e)
        (watched-In names a.raw n (elim m [
          | inl x ↦ inl x
          | inr (j, x) ↦ inr (j, subst (λ d. lookup j (d.aliases) ≡ some n) e x)
        ]))) in
    let open' : c.done ≡ false = ap (λ d. d.done) e in rw (open', k) refl
