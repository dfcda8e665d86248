-- ===== src/Display/Controller.antt =====
-- internal/display/mutter.go: `Controller.Set` and the channel of changes.
use systemd2mqtt.Base.{
  ℕ, zero, suc, ◌≤◌, ◌≡◌, ◌≢◌, ◌↔◌, refl, ap, ◌∙◌, Bool, true, false, Bool-cases, inl, inr, Option,
  none, some, List, [], ◌∷◌, ◌++◌, if◌then◌else◌, ltb, length, length-append, arith, ◌-◌,
}
use systemd2mqtt.Display.Mode.{Mode, unknown, on, standby, suspend, off, mode_eq}

abbrev pub changes_buffer : ℕ
changes_buffer = 4

abbrev pub tail : List Mode → List Mode
tail [] = []
tail (m ∷ ms) = ms

-- `push`: rounds of the loop, on fuel. A full channel loses its oldest value; the reader may take
-- values too, which only ends the loop sooner.
unfoldable pub push_loop : ℕ → Mode → List Mode → Option (List Mode)
push_loop zero m ch = none
push_loop (suc n) m ch =
    let again = push_loop n m (tail ch) in
    if ltb (length ch) changes_buffer then some (ch ++ (m ∷ [])) else again

unfoldable pub push : Mode → List Mode → Option (List Mode)
unfolding push_loop
push m ch = push_loop (suc changes_buffer) m ch

-- The D-Bus calls of one `Set`, as they answer: the mode before, whether the write works, and the
-- mode read back. `none` is an error.
pub record Bus : Type 0 where
  pub before : Option Mode
  pub written : Bool
  pub after : Option Mode

pub data SetError : Type 0 where
  refused_mode get_failed err_unknown_state set_failed : SetError

-- What `Set` does: its error, the value it writes, and the value it pushes.
pub record SetOutcome : Type 0 where
  pub err : Option SetError
  pub wrote : Option Mode
  pub pushed : Option Mode

abbrev fails : SetError → SetOutcome
fails e = record { err = some e; wrote = none; pushed = none }

abbrev write : Mode → Bool → Option Mode → SetOutcome
write m false after = record { err = some set_failed; wrote = some m; pushed = none }
write m true after = record { err = none; wrote = some m; pushed = after }

abbrev set_from : Mode → Option Mode → Bus → SetOutcome
set_from m none b = fails get_failed
set_from m (some unknown) b = fails err_unknown_state
set_from m (some cur) b =
    if mode_eq cur m
    then record { err = none; wrote = none; pushed = none }
    else write m b.written b.after

-- `Set`
unfoldable pub set_mode : Mode → Bus → SetOutcome
set_mode unknown b = fails refused_mode
set_mode m b = set_from m b.before b

-- What has to hold for w to be written when m is asked for: m is one of the four real modes, w is
-- m, and the display reported another real mode.
pub record Replaces (m w : Mode) (before : Option Mode) : Type 0 where
  pub asked : w ≡ m
  pub real : m ≢ unknown
  pub current : Mode
  pub reported : before ≡ some current
  pub known : current ≢ unknown
  pub other : mode_eq current m ≡ false

set_from-Replaces :
    (m w cur : Mode) (b : Bus)
    → m ≢ unknown
    → cur ≢ unknown
    → ((set_from m (some cur) b).wrote ≡ some w) ↔ ((w ≡ m) × (mode_eq cur m ≡ false))
set_from-Replaces m w cur b h k = ground arith

set_mode_real : (m : Mode) (b : Bus) → m ≢ unknown → set_mode m b ≡ set_from m b.before b
unfolding set_mode
set_mode_real unknown b h = absurd (h refl)
set_mode_real on b h = refl
set_mode_real standby b h = refl
set_mode_real suspend b h = refl
set_mode_real off b h = refl

set_from-wrote :
    (m w : Mode) (o : Option Mode) (b : Bus)
    → m ≢ unknown
    → (set_from m o b).wrote ≡ some w
    → Replaces m w o
set_from-wrote m w none b h e = cc
set_from-wrote m w (some cur) b h e = elim (Bool-cases (mode_eq cur unknown)) [
  | inl u ↦ absurd (never cur u e)
  | inr k ↦
      let n : cur ≢ unknown = λ q. cc in
      let (a, d) = (set_from-Replaces m w cur b h n).0 e in
      record { asked = a; real = h; current = cur; reported = refl; known = n; other = d }
]
  where
    never : (c : Mode) → mode_eq c unknown ≡ true → (set_from m (some c) b).wrote ≡ some w → ⊥
    never c u e' = ground arith

-- `Set` writes a mode exactly if it is the mode asked for, one of the four real modes, and the
-- display was read before as being in another real mode.
pub set_mode-writes :
    (m w : Mode) (b : Bus) → ((set_mode m b).wrote ≡ some w) ↔ Replaces m w b.before
unfolding set_mode
set_mode-writes m w b = (forward m, backward)
  where
    forward : (n : Mode) → (set_mode n b).wrote ≡ some w → Replaces n w b.before
    forward unknown e = cc
    forward on e = set_from-wrote on w b.before b (λ q. cc) e
    forward standby e = set_from-wrote standby w b.before b (λ q. cc) e
    forward suspend e = set_from-wrote suspend w b.before b (λ q. cc) e
    forward off e = set_from-wrote off w b.before b (λ q. cc) e

    backward : Replaces m w b.before → (set_mode m b).wrote ≡ some w
    backward r =
        ap (λ (o : SetOutcome). o.wrote) (set_mode_real m b r.real)
        ∙ ap (λ o. (set_from m o b).wrote) r.reported
        ∙ (set_from-Replaces m w r.current b r.real r.known).1 (r.asked, r.other)

length-tail : (ch : List Mode) → length (tail ch) ≡ length ch - 1
length-tail [] = omega arith
length-tail (m ∷ ms) = omega arith

-- However many modes wait in the channel, up to its four slots, `push` ends and puts the new mode
-- at the newest place; of the modes waiting it drops the oldest if the channel is full, and none
-- otherwise, so that the channel keeps within its slots.
pub push_newest :
    (m : Mode) (ch : List Mode)
    → length ch ≤ changes_buffer
    → let left = if ltb (length ch) changes_buffer then ch else tail ch in
      (push m ch ≡ some (left ++ (m ∷ []))) × (length (left ++ (m ∷ [])) ≤ changes_buffer)
unfolding push push_loop
push_newest m ch h = elim (Bool-cases (ltb (length ch) changes_buffer)) [
  | inl room ↦ rw room (refl, ground (arith, length-append ch (m ∷ [])))
  | inr full ↦ rw full (
    ground (arith, length-tail ch),
    omega (arith, length-tail ch, length-append (tail ch) (m ∷ [])),
  )
]
