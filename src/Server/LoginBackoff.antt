-- ===== src/Server/LoginBackoff.antt =====
-- packages/server/src/auth/backoff.ts: `LoginBackoff`. An account is the text in lower case.
use Prim.Native.Nat.{min}
use ai_kanban.Prelude.{
  ℕ, zero, suc, ◌+◌, ◌-◌, ◌*◌, Option, none, some, List, [], ◌∷◌, ◌++◌, filter, length, leb,
  string_eq, ◌==◌, ◌!=◌, String, if◌then◌else◌,
}
use ai_kanban.Domain.Vocabulary.{Instant}

abbrev pub backoff_base_ms : ℕ
backoff_base_ms = 1000

abbrev pub backoff_cap_ms : ℕ
backoff_cap_ms = 60000

unfoldable pub power_of_two : ℕ → ℕ
power_of_two zero = 1
power_of_two (suc n) = 2 * power_of_two n

unfoldable pub backoff_delay_ms : ℕ → ℕ
unfolding power_of_two
backoff_delay_ms zero = 0
backoff_delay_ms (suc failures) = min (backoff_base_ms * power_of_two failures) backoff_cap_ms

pub record BackoffEntry : Type 0 where
  pub account : String
  pub failures : ℕ
  pub last_failure_at_ms : Instant

abbrev pub find_entry : String → List BackoffEntry → Option BackoffEntry
find_entry account [] = none
find_entry account (e ∷ entries) =
    if e.account == account then some e else find_entry account entries

abbrev wait_of : Option BackoffEntry → Instant → ℕ
wait_of none now = 0
wait_of (some entry) now = entry.last_failure_at_ms + backoff_delay_ms entry.failures - now

-- The entries stand in the order of their last failures, the stalest first.
unfoldable pub retry_after_ms : String → Instant → List BackoffEntry → ℕ
retry_after_ms account now entries = wait_of (find_entry account entries) now

abbrev pub without : String → List BackoffEntry → List BackoffEntry
without account entries = filter (λ e. e.account != account) entries

abbrev drop_oldest : List BackoffEntry → List BackoffEntry
drop_oldest [] = []
drop_oldest (e ∷ entries) = entries

abbrev pub evicted : ℕ → List BackoffEntry → List BackoffEntry
evicted max_entries entries =
    if leb max_entries (length entries) then drop_oldest entries else entries

abbrev pub failures_of : Option BackoffEntry → ℕ
failures_of none = 0
failures_of (some entry) = entry.failures

unfoldable pub record_failure : ℕ → String → Instant → List BackoffEntry → List BackoffEntry
record_failure max_entries account now entries =
    evicted max_entries (without account entries)
    ++ record {
      account = account;
      failures = failures_of (find_entry account entries) + 1;
      last_failure_at_ms = now;
    }
      ∷ []

unfoldable pub reset : String → List BackoffEntry → List BackoffEntry
reset account entries = without account entries
