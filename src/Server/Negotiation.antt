-- ===== src/Server/Negotiation.antt =====
-- `ReadyNegotiationService` (server/src/realtime/ready-negotiation.service.ts): how far ahead a
-- countdown starts, from the round trips that its clients had.
pub mod Laws
use wos_sfc.Prelude.{
  ℕ, zero, suc, ◌+◌, ◌-◌, ◌*◌, ◌/◌, min, String, Bool, Option, none, some, List, [], ◌∷◌, map,
  filter, length, contains, get_or, string_eq,
}
use wos_sfc.Prelude.Int.{ℤ, pos, ◌+ℤ◌}
use wos_sfc.Prelude.IntOrder.{min_ℤ, sort_ℤ}

abbrev pub outlier_rtt_ms : ℕ
outlier_rtt_ms = 500

abbrev pub fallback_rtt_ms : ℕ
fallback_rtt_ms = 200

abbrev pub startup_grace_margin_ms : ℕ
startup_grace_margin_ms = 200

abbrev pub max_startup_grace_ms : ℕ
max_startup_grace_ms = 1500

-- 0.95, in hundredths
abbrev pub grace_percentile : ℕ
grace_percentile = 95

-- A round trip is a difference of two times of the clock, which may be set back meanwhile.
pub data ProbeOutcome : Type 0 where
  ack : ℤ → ProbeOutcome
  timeout : ProbeOutcome
  invalid_ack : ProbeOutcome

abbrev pub to_rtt : ProbeOutcome → ℤ
to_rtt (ack rtt) = min_ℤ rtt (pos outlier_rtt_ms)
to_rtt timeout = pos outlier_rtt_ms
to_rtt invalid_ack = pos fallback_rtt_ms

abbrev pub elem_at : ℕ → List ℤ → Option ℤ
elem_at n [] = none
elem_at zero (x ∷ xs) = some x
elem_at (suc n) (x ∷ xs) = elem_at n xs

-- `Math.ceil(percentile * n)`
abbrev pub rank_of : ℕ → ℕ → ℕ
rank_of percentile n = (percentile * n + 99) / 100

abbrev pub pick_sorted : ℕ → List ℤ → ℤ
pick_sorted percentile sorted =
    get_or (elem_at (min (length sorted - 1) (rank_of percentile (length sorted) - 1)) sorted)
      (pos fallback_rtt_ms)

unfoldable pub calc_percentile : List ℤ → ℕ → ℤ
calc_percentile [] percentile = pos fallback_rtt_ms
calc_percentile (x ∷ xs) percentile = pick_sorted percentile (sort_ℤ (x ∷ xs))

-- `rtt * 2 + STARTUP_GRACE_MARGIN_MS`
abbrev pub grace_for : ℤ → ℤ
grace_for rtt = rtt +ℤ rtt +ℤ pos startup_grace_margin_ms

-- The grace of `negotiateStartedAt`, when its probes have come to these outcomes.
unfoldable pub grace : List ProbeOutcome → ℤ
grace [] = pos startup_grace_margin_ms
grace (o ∷ outcomes) =
    min_ℤ (grace_for (calc_percentile (map to_rtt (o ∷ outcomes)) grace_percentile))
      (pos max_startup_grace_ms)

-- `now` is when the last outcome is there.
abbrev pub negotiate_started_at : ℕ → List ProbeOutcome → ℤ
negotiate_started_at now outcomes = pos now +ℤ grace outcomes

module _ {ℓ} {S : Type ℓ} where
  abbrev pub sockets_of : List (String × S) → List S
  sockets_of = map (λ (entry : String × S). entry.1)

  abbrev if_any : List S → List S → List S
  if_any [] all_sockets = all_sockets
  if_any (s ∷ ss) all_sockets = s ∷ ss

  -- Those of the authenticated sockets, unless there are none; `none` is no set.
  unfoldable pub select_probe_targets : List (String × S) → Option (List String) → List S
  select_probe_targets entries none = sockets_of entries
  select_probe_targets entries (some ids) =
      if_any (sockets_of (filter (λ (entry : String × S). contains entry.0 ids) entries))
        (sockets_of entries)
