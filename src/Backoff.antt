-- ===== src/Backoff.antt =====
-- packages/server/src/auth/backoff.ts: how long failed logins make an account wait.
use Prim.Native.Nat.{min}
use ai_kanban.Prelude.{
  ℕ, zero, suc, ◌+◌, ◌-◌, ◌*◌, ◌≤◌, none, some, List, [], ◌∷◌, ◌++◌, length, string_eq, String, ◌≡◌,
  refl, arith,
}
use ai_kanban.Domain.Vocabulary.{Instant}
use ai_kanban.Server.LoginBackoff.{
  backoff_base_ms, backoff_cap_ms, power_of_two, backoff_delay_ms, BackoffEntry, find_entry,
  retry_after_ms, without, evicted, failures_of, record_failure,
}

power_of_two-pos : (n : ℕ) → 1 ≤ power_of_two n
unfolding power_of_two
power_of_two-pos zero = omega arith
power_of_two-pos (suc n) = omega (arith, power_of_two-pos n)

-- The delay doubles with each failure up to the cap, and is at least a second after the first one.
pub backoff_delay_ms-doubles :
    (failures : ℕ)
    → (backoff_delay_ms (suc (suc failures))
        ≡ min (2 * backoff_delay_ms (suc failures)) backoff_cap_ms)
      × (backoff_base_ms ≤ backoff_delay_ms (suc failures))
      × (backoff_delay_ms failures ≤ backoff_cap_ms)
unfolding backoff_delay_ms power_of_two
backoff_delay_ms-doubles zero = (omega arith, omega arith, omega arith)
backoff_delay_ms-doubles (suc failures) =
    (omega arith, omega (arith, power_of_two-pos failures), omega arith)

find_entry-append :
    (account : String) (entries : List BackoffEntry) (e : BackoffEntry)
    → find_entry account entries ≡ none
    → e.account ≡ account
    → find_entry account (entries ++ e ∷ []) ≡ some e
find_entry-append account [] e h k =
    rw k (ground (arith, (string_eq.equal_iff account account).1 refl))
find_entry-append account (x ∷ entries) e h k = ground (arith, find_entry-append account entries e)

find_entry-without :
    (account : String) (entries : List BackoffEntry)
    → find_entry account (without account entries) ≡ none
find_entry-without account [] = refl
find_entry-without account (e ∷ entries) = ground (arith, find_entry-without account entries)

evicted-bounds :
    (account : String) (max_entries : ℕ) (entries : List BackoffEntry)
    → find_entry account entries ≡ none
    → 1 ≤ max_entries
    → length entries ≤ max_entries
    → (find_entry account (evicted max_entries entries) ≡ none)
      × (suc (length (evicted max_entries entries)) ≤ max_entries)
evicted-bounds account max_entries [] h k l = ground arith
evicted-bounds account max_entries (e ∷ entries) h k l = ground arith

length-append_one :
    (entries : List BackoffEntry) (e : BackoffEntry)
    → length (entries ++ e ∷ []) ≡ suc (length entries)
length-append_one [] e = refl
length-append_one (x ∷ entries) e = ground (arith, length-append_one entries e)

length-without :
    (account : String) (entries : List BackoffEntry)
    → length (without account entries) ≤ length entries
length-without account [] = omega arith
length-without account (e ∷ entries) = ground (arith, length-without account entries)

-- A failure is counted on, makes the account wait for the delay of its count from now on, and keeps
-- the entries within their maximum.
pub record_failure-retry_after_ms :
    (max_entries : ℕ) (account : String) (now : Instant) (entries : List BackoffEntry)
    → 1 ≤ max_entries
    → length entries ≤ max_entries
    → let next = record_failure max_entries account now entries in
      let count = suc (failures_of (find_entry account entries)) in
      (failures_of (find_entry account next) ≡ count)
      × ((later : ℕ) → retry_after_ms account (now + later) next ≡ backoff_delay_ms count - later)
      × (length next ≤ max_entries)
unfolding record_failure retry_after_ms
record_failure-retry_after_ms max_entries account now entries some_room full =
    let rest = without account entries in
    let e : BackoffEntry = record {
      account = account;
      failures = failures_of (find_entry account entries) + 1;
      last_failure_at_ms = now;
    } in
    let (gone, room) =
      evicted-bounds account max_entries rest (find_entry-without account entries) some_room
        (omega (arith, length-without account entries)) in
    let found = find_entry-append account (evicted max_entries rest) e gone refl in
    let size = length-append_one (evicted max_entries rest) e in
    (ground arith, λ later. ground arith, ground arith)
