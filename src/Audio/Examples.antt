-- ===== src/Audio/Examples.antt =====
-- The player at work: a countdown of three seconds, and a rally with two captains.
use wos_sfc.Prelude.{ℕ, ◌≤◌, ◌<◌, ◌≡◌, refl, inl, arith, contains, none, some, List, [], ◌∷◌, All}
use wos_sfc.Prelude.Int.{pos, ◌+ℤ◌, ◌-ℤ◌}
use wos_sfc.Audio.Player.{
  Context, running, suspended, Source, AudioEvent, scheduled, awaited, loaded_buffer, changed,
  Player, new_player, stop, place, schedule_all, schedule_play, start_source, output_latency,
  respond_all,
}
use wos_sfc.Audio.Player.Timing.{IsTimely, respond_all-IsTimely}
use wos_sfc.Audio.Player.Silence.{stopped_silent}
use wos_sfc.Audio.Player.Sync.{heard_sources, heard_at, at_once, expected_all, place_heard}
use wos_sfc.Audio.Plans.{
  number, Key, key_eq, CountdownParams, countdown_plan, countdown_slots, number_slots,
  march_slot_seconds, FireOffset, counted_seconds,
}
use wos_sfc.Audio.Plans.Laws.{IsApart, counted_seconds-IsApart}

abbrev phone : Context
phone = record {
  state = running;
  current_time = 4000;
  output_latency = some (pos 120);
  base_latency = none;
}

abbrev three : CountdownParams
three = record {
  total_seconds = 3;
  started_at = 100000;
  time_offset = pos 0;
  lang = "ko";
  march_seconds = some 2;
}

abbrev voice_three : Key
voice_three = record { lang = "ko"; voice = number 3 }

-- The buffer of the first number comes before its await is over.
abbrev played : List (AudioEvent Key CountdownParams)
played = loaded_buffer voice_three ∷ scheduled three ∷ awaited 2 ∷ []

-- What may come once the countdown is stopped.
abbrev late : List (AudioEvent Key CountdownParams)
late = loaded_buffer voice_three ∷ awaited 2 ∷ changed suspended ∷ changed running ∷ []

respond_all-IsTimely_example :
    let p = respond_all countdown_plan played (new_player phone 100000) in
    All (λ (s : Source Key). (s.slot.schedule ≡ p.latest_schedule_id) × IsTimely s) p.active_sources
respond_all-IsTimely_example = respond_all-IsTimely countdown_plan phone 100000 played

stopped_silent_example :
    let p =
      respond_all countdown_plan late
        (stop (respond_all countdown_plan played (new_player phone 100000))) in
    (p.active_sources ≡ []) × (p.pending_schedule ≡ none)
stopped_silent_example =
    stopped_silent countdown_plan phone 100000 played late (tt, (tt, (tt, (tt, tt))))

abbrev voice_one : Key
voice_one = record { lang = "ko"; voice = number 1 }

-- Half a second into the countdown: the buffers of 3 and 1 are there, that of 2 is not.
abbrev joined : Player Key CountdownParams
joined = record (new_player phone 100500) {
  loaded = voice_three ∷ voice_one ∷ [];
  latest_schedule_id = 1;
}

place_heard_example :
    heard_sources 120 countdown_plan three joined
      (place countdown_plan three 1 joined).active_sources
    ≡ expected_all
        (at_once countdown_plan three joined 120)
        (voice_three ∷ voice_one ∷ [])
        100000
        (countdown_slots three)
        []
place_heard_example =
    place_heard countdown_plan three joined 120 1 refl (inl (refl, omega arith)) (omega arith) refl

place_run :
    heard_sources 120 countdown_plan three joined
      (place countdown_plan three 1 joined).active_sources
    ≡ (voice_one, pos 102000) ∷ []
unfolding place schedule_all schedule_play start_source output_latency heard_at ◌+ℤ◌ ◌-ℤ◌
    countdown_slots number_slots march_slot_seconds contains
place_run = refl

abbrev captains : List FireOffset
captains =
    record { order_index = 1; offset_ms = 0 } ∷ record { order_index = 2; offset_ms = 6400 } ∷ []

counted_seconds-IsApart_example :
    All (λ (s : ℕ). (3 < s) × (s ≤ 180) × All (IsApart s) captains) (counted_seconds captains)
counted_seconds-IsApart_example = counted_seconds-IsApart captains
