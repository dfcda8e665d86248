-- ===== src/App/Commands/Mailbox.antt =====
-- internal/app/commands.go: `offerReplace` on a mailbox of one slot, which a worker empties at any
-- moment.
use systemd2mqtt.Base.{
  ◌≡◌, Bool, true, false, not, ◌&&◌, Option, none, some, is_some, if◌then◌else◌, arith,
}

pub record Offer (A : Type 0) : Type 0 where
  pub mailbox : Option A
  pub replaced : Bool
  -- What the worker took meanwhile.
  pub taken : Option A

module _ {A : Type 0} where
  -- The worker receives, or does not.
  abbrev left : Bool → Option A → Option A
  left true box = none
  left false box = box

  abbrev took : Bool → Option A → Option A
  took true box = box
  took false box = none

  -- The last two selects: the loop receives what waits, the worker has its chance, and the loop
  -- sends if there is room.
  abbrev put : A → Option A → Option A
  put v none = some v
  put v (some old) = some old

  -- The second select, on what the worker left, and the third.
  abbrev replace : Bool → A → Option A → Option A → Offer A
  replace takes v waiting taken = record {
    mailbox = put v (left takes none);
    replaced = is_some waiting;
    taken = taken;
  }

  -- `offerReplace`; the flags tell whether the worker receives before the second select, and
  -- before the third.
  unfoldable pub offer_replace : Bool → Bool → A → Option A → Offer A
  offer_replace takes_first takes_second v none = record {
    mailbox = some v;
    replaced = false;
    taken = none;
  }
  offer_replace takes_first takes_second v (some old) =
      replace takes_second v (left takes_first (some old)) (took takes_first (some old))

  -- Whatever waits in the mailbox and whenever the worker takes it, the newest command is the one
  -- left waiting, and a waiting command is either taken by the worker or reported as replaced,
  -- never both and never neither.
  pub newest_wins :
      (takes_first takes_second : Bool) (v : A) (box : Option A)
      → let offer = offer_replace takes_first takes_second v box in
        (offer.mailbox ≡ some v)
        × (offer.replaced ≡ (is_some box && not takes_first))
        × (offer.taken ≡ (if takes_first then box else none))
  unfolding offer_replace
  newest_wins a b v none = ground arith
  newest_wins a b v (some old) = ground arith
