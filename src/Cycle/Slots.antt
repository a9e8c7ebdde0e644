-- ===== src/Cycle/Slots.antt =====
-- The order in which one worker group takes the DNS checks and the domain checks of a cycle:
-- fastCheckSlot in src/internal/monitor/runtime.go.
use domain_monitor.Base.{
  ℕ, ◌+◌, ◌-◌, ◌*◌, ◌/◌, ◌%◌, ◌≤◌, ◌<◌, min, ◌≡◌, Bool, true, false, arith, ltb, ◌==◌,
  if◌then◌else◌,
}

abbrev pub fast_check_pair_size : ℕ
fast_check_pair_size = 2

unfoldable pub fast_check_slot : ℕ → ℕ → ℕ → Bool × ℕ
fast_check_slot position dns_count domain_count =
    let paired = min dns_count domain_count in
    if ltb position (fast_check_pair_size * paired)
    then (position % fast_check_pair_size == 0, position / fast_check_pair_size)
    else if ltb domain_count dns_count
    then (true, position - domain_count)
    else (false, position - dns_count)

-- Where a check of the one kind or the other stands in that order.
abbrev pub position_of : Bool → ℕ → ℕ → ℕ → ℕ
position_of true index dns_count domain_count =
    if ltb index (min dns_count domain_count) then 2 * index else index + domain_count
position_of false index dns_count domain_count =
    if ltb index (min dns_count domain_count) then 2 * index + 1 else index + dns_count

-- How many checks of a kind there are.
abbrev pub count_of : Bool → ℕ → ℕ → ℕ
count_of true dns_count domain_count = dns_count
count_of false dns_count domain_count = domain_count

-- Each position below the number of checks gets a check that exists (the index lies below the
-- number of checks of its kind), and the position is found again from the slot, so that no two
-- positions share one.
fast_check_slot_injective :
    (position dns_count domain_count : ℕ)
    → position < dns_count + domain_count
    → let (is_dns, index) = fast_check_slot position dns_count domain_count in
      (index < count_of is_dns dns_count domain_count)
      × (position_of is_dns index dns_count domain_count ≡ position)
unfolding fast_check_slot
fast_check_slot_injective p a b h = (ground arith, ground arith)

-- No check is left out: each check that exists is the slot of the position that `position_of`
-- gives, which lies below the number of checks.
pub fast_check_slot_onto :
    (is_dns : Bool) (index dns_count domain_count : ℕ)
    → index < count_of is_dns dns_count domain_count
    → (position_of is_dns index dns_count domain_count < dns_count + domain_count)
      × (fast_check_slot (position_of is_dns index dns_count domain_count) dns_count domain_count
          ≡ (is_dns, index))
unfolding fast_check_slot
fast_check_slot_onto true i a b h = (ground arith, ground arith)
fast_check_slot_onto false i a b h = (ground arith, ground arith)

-- A domain check never waits behind a large DNS portfolio: the one with index `index` has its
-- turn at position `2 * index + 1` at the latest, whatever the number of DNS checks.
pub domain_check_not_delayed :
    (index dns_count domain_count : ℕ)
    → index < domain_count
    → (position : ℕ) × (position ≤ 2 * index + 1)
      × (fast_check_slot position dns_count domain_count ≡ (false, index))
domain_check_not_delayed i a b h =
    (position_of false i a b, ground arith, (fast_check_slot_onto false i a b h).1)
