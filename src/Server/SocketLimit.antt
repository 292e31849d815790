-- ===== src/Server/SocketLimit.antt =====
-- `WsRateLimitService` (server/src/realtime/ws-rate-limit.service.ts): a window for each event of
-- each socket.
pub mod Laws
use wos_sfc.Prelude.{
  ℕ, ◌+◌, String, Bool, true, false, ◌&&◌, Option, none, some, List, [], ◌∷◌, leb, get_or,
  if◌then◌else◌, string_eq,
}
use wos_sfc.Prelude.Dict.{Dict, lookup, insert, remove}
use wos_sfc.Server.Window.{consume}

pub record Bucket : Type 0 where
  pub timestamps : List ℕ
  pub last_warn_at : Option ℕ

abbrev pub Buckets : Type 0
Buckets = Dict String (Dict String Bucket)

abbrev pub new_bucket : Bucket
new_bucket = record { timestamps = []; last_warn_at = none }

abbrev pub bucket_of : String → String → Buckets → Bucket
bucket_of socket event buckets =
    get_or (lookup event (get_or (lookup socket buckets) [])) new_bucket

-- `timestamps[0] < now - windowMs` is what the loop cuts off.
abbrev pub is_within : ℕ → ℕ → ℕ → Bool
is_within window_ms now t = leb now (t + window_ms)

-- A refusal is logged once in a window.
abbrev pub warned_at : ℕ → ℕ → Option ℕ → Option ℕ
warned_at window_ms now none = some now
warned_at window_ms now (some last) = if leb (last + window_ms) now then some now else some last

abbrev pub next_bucket : ℕ → ℕ → ℕ → Bucket → Bucket × Bool
next_bucket limit window_ms now b =
    let (times, allowed) = consume limit (is_within window_ms) now b.timestamps in
    (
      record {
        timestamps = times;
        last_warn_at = if allowed then b.last_warn_at else warned_at window_ms now b.last_warn_at;
      },
      allowed,
    )

unfoldable pub check : String → String → ℕ → ℕ → ℕ → Buckets → Buckets × Bool
unfolding consume
check socket event limit window_ms now buckets =
    let (b, allowed) = next_bucket limit window_ms now (bucket_of socket event buckets) in
    (insert socket (insert event b (get_or (lookup socket buckets) [])) buckets, allowed)

unfoldable pub cleanup : String → Buckets → Buckets
cleanup socket buckets = remove socket buckets

-- What reaches the service: a request, or the end of a socket.
pub data Call : Type 0 where
  request : String → String → ℕ → Call
  gone : String → Call

-- Each event has a limit and a window, as the gateways give them.
module _ (rule : String → ℕ × ℕ) where
  abbrev pub check_rule : String → String → ℕ → Buckets → Buckets × Bool
  check_rule socket event now buckets = check socket event (rule event).0 (rule event).1 now buckets

  -- The answers that one event of one socket gets in a run.
  unfoldable pub answers : String → String → List Call → Buckets → List Bool
  answers socket event [] buckets = []
  answers socket event (request s e now ∷ calls) buckets =
      let (buckets', allowed) = check_rule s e now buckets in
      let rest = answers socket event calls buckets' in
      if string_eq.beq socket s && string_eq.beq event e then allowed ∷ rest else rest
  answers socket event (gone s ∷ calls) buckets = answers socket event calls (cleanup s buckets)
