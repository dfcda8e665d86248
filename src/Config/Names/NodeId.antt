-- ===== src/Config/Names/NodeId.antt =====
-- The default node id: the host's name, cleaned up, always passes the check on node ids.
use systemd2mqtt.Base.{
  ℕ, zero, suc, ◌≤◌, inl, inr, Bool-cases, ◌≡◌, refl, Bool, true, false, [], ◌∷◌, arith, leb, all,
  length,
}
use systemd2mqtt.Base.Lists.{take, length-take}
use systemd2mqtt.Base.Text.{Text}
use systemd2mqtt.Base.Text.Space.{trim}
use systemd2mqtt.Base.Text.Case.{to_lower}
use systemd2mqtt.Base.Text.Runs.{replace_runs, in_class, replace_runs-in_class}
use systemd2mqtt.Base.Text.Trimmed.{all-trim}
use systemd2mqtt.Config.Names.{is_node_char, is_dash, cap_length, node_id_re, sanitize_node_id}

all-take : (q : ℕ → Bool) (n : ℕ) (s : Text) → all q s ≡ true → all q (take n s) ≡ true
all-take q zero s h = refl
all-take q (suc n) [] h = refl
all-take q (suc n) (c ∷ s) h = ground (arith, all-take q n s)

all_dash : (s : Text) → all (in_class is_node_char b'-') s ≡ true → all is_node_char s ≡ true
all_dash [] h = refl
all_dash (c ∷ s) h = ground (arith, all_dash s)

node_id_re_intro :
    (s : Text) → 1 ≤ length s → length s ≤ 64 → all is_node_char s ≡ true → node_id_re s ≡ true
unfolding node_id_re
node_id_re_intro s a b c = ground arith

cap_length-node_id_re : (s : Text) → all is_node_char s ≡ true → node_id_re (cap_length s) ≡ true
cap_length-node_id_re [] h = unfold node_id_re in refl
cap_length-node_id_re (c ∷ s) h = elim (Bool-cases (leb (length (c ∷ s)) 64)) [
  | inl short ↦ rw short (node_id_re_intro (c ∷ s) (omega arith) (ground arith) h)
  | inr long ↦ rw long (
      node_id_re_intro (take 64 (c ∷ s)) (omega arith) (omega (arith, length-take 64 (c ∷ s)))
        (all-take is_node_char 64 (c ∷ s) h))
]

-- Whatever the host is called, the node id made from its name passes the check on node ids:
-- one to 64 code points of the class `[a-z0-9_-]`.
pub sanitize_node_id_valid : (host : Text) → node_id_re (sanitize_node_id host) ≡ true
unfolding sanitize_node_id
sanitize_node_id_valid host =
    let s = replace_runs is_node_char b'-' false (to_lower host) in
    cap_length-node_id_re (trim is_dash s) (
      all_dash (trim is_dash s) (
        all-trim is_dash (in_class is_node_char b'-') s
          (replace_runs-in_class is_node_char b'-' false (to_lower host))))
