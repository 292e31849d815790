-- ===== src/Server/BusyLock/Laws.antt =====
-- What the lock does when it is free, and when it is held by the one that asks or by another.
use wos_sfc.Prelude.{
  ℕ, ◌+◌, ◌<◌, ◌≡◌, refl, Bool, true, false, not, ◌||◌, Option, none, some, leb, is_some,
  if◌then◌else◌, Bool-cases, Option-cases, inl, inr, arith, String, string_eq, ◌∙◌, ap,
}
use text.Mathlib.TextEquality.{eq_iff}
use wos_sfc.Server.BusyLock.{
  LockHolder, countdown, rally, BusyLock, free_lock, matches, is_held_by, release_timer,
  try_acquire, reschedule, release, fire, due_now,
}

matches→same : (a b : LockHolder) → matches a b ≡ true → a ≡ b
matches→same countdown countdown h = refl
matches→same (rally a) (rally b) h = ap rally ((eq_iff a b).0 h)
matches→same countdown (rally b) h = absurd (cc)
matches→same (rally a) countdown h = absurd (cc)

pub held_by→holder :
    (h : LockHolder) (holder : Option LockHolder) → is_held_by h holder ≡ true → holder ≡ some h
held_by→holder h none is = absurd (cc)
held_by→holder h (some held) is = ap some (matches→same held h is)

module _ {C : Type 0} where
  -- A lock whose timer calls the end of a countdown that holds it, and that has none while it is free.
  abbrev pub IsTimed : C → BusyLock C → Type 0
  IsTimed end lock =
      (lock.holder ≡ some countdown → (due : ℕ) × (lock.timer ≡ some (due, some end)))
      × (lock.holder ≡ none → lock.timer ≡ none)

  pub try_acquire_taken :
      (h held : LockHolder) (ms : Option ℕ) (callback : Option C) (now : ℕ) (lock : BusyLock C)
      → lock.holder ≡ some held
      → try_acquire h ms callback now lock ≡ (lock, false)
  unfolding try_acquire
  try_acquire_taken h held ms callback now lock taken = ap choose taken
    where
      choose : Option LockHolder → BusyLock C × Bool
      choose holder =
          if is_some holder
          then (lock, false)
          else (record { holder = some h; timer = release_timer now ms callback lock.timer }, true)

  pub try_acquire_free :
      (h : LockHolder) (ms : Option ℕ) (callback : Option C) (now : ℕ) (lock : BusyLock C)
      → lock.holder ≡ none
      → try_acquire h ms callback now lock
        ≡ (record { holder = some h; timer = release_timer now ms callback lock.timer }, true)
  unfolding try_acquire
  try_acquire_free h ms callback now lock free = ap choose free
    where
      choose : Option LockHolder → BusyLock C × Bool
      choose holder =
          if is_some holder
          then (lock, false)
          else (record { holder = some h; timer = release_timer now ms callback lock.timer }, true)

  pub set_timer :
      (ms now : ℕ) (callback : C) (timer : Option (ℕ × Option C))
      → 0 < ms
      → release_timer now (some ms) (some callback) timer ≡ some (now + ms, some callback)
  set_timer ms now callback timer long = ground arith

  pub try_acquire-IsTimed :
      (end : C) (h : LockHolder) (ms now : ℕ) (callback : C) (lock : BusyLock C)
      → (h ≡ countdown → (0 < ms) × (callback ≡ end))
      → IsTimed end lock
      → IsTimed end (try_acquire h (some ms) (some callback) now lock).0
  try_acquire-IsTimed end h ms now callback lock own t = elim (Option-cases lock.holder) [
    | inl free ↦ rw (try_acquire_free h (some ms) (some callback) now lock free) (
      λ is.
          let (long, same) = own (cc) in
          (
            now + ms,
            set_timer ms now callback lock.timer long ∙ ap (λ c. some (now + ms, some c)) same,
          ),
      λ none_held. absurd (cc),
    )
    | inr (held, taken) ↦ rw (try_acquire_taken h held (some ms) (some callback) now lock taken) t
  ]

  pub reschedule-IsTimed :
      (end : C) (h : LockHolder) (ms now : ℕ) (callback : C) (lock : BusyLock C)
      → (h ≡ countdown → callback ≡ end)
      → IsTimed end lock
      → IsTimed end (reschedule h ms (some callback) now lock).0
  unfolding reschedule
  reschedule-IsTimed end h ms now callback lock own t =
      elim (Bool-cases (not (is_held_by h lock.holder) || leb ms 0)) [
        | inl kept ↦ rw kept t
        | inr go ↦
            let held = held_by→holder h lock.holder (ground (arith, go)) in
            rw go (
              λ is. (now + ms, ap (λ c. some (now + ms, some c)) (own (cc (held, is)))),
              λ free. absurd (cc (held, free)),
            )
      ]

  pub holder-reschedule :
      (h : LockHolder) (ms now : ℕ) (callback : Option C) (lock : BusyLock C)
      → (reschedule h ms callback now lock).0.holder ≡ lock.holder
  unfolding reschedule
  holder-reschedule h ms now callback lock =
      elim (Bool-cases (not (is_held_by h lock.holder) || leb ms 0)) [
        | inl kept ↦ rw kept refl
        | inr go ↦ rw go refl
      ]

  pub release-IsTimed :
      (end : C) (h : LockHolder) (lock : BusyLock C)
      → IsTimed end lock
      → IsTimed end (release h lock)
  unfolding release
  release-IsTimed end h lock t = elim (Bool-cases (is_held_by h lock.holder)) [
    | inl own ↦ rw own (λ is. absurd (cc), λ free. refl)
    | inr other ↦ rw other t
  ]

  -- A rally neither takes the lock from a countdown nor frees it.
  pub countdown_kept :
      (group : String) (ms : Option ℕ) (callback : Option C) (now : ℕ) (lock : BusyLock C)
      → lock.holder ≡ some countdown
      → ((try_acquire (rally group) ms callback now lock).0.holder ≡ some countdown)
        × ((release (rally group) lock).holder ≡ some countdown)
  unfolding release
  countdown_kept group ms callback now lock held = (
    ap (λ (l : BusyLock C × Bool). l.0.holder)
          (try_acquire_taken (rally group) countdown ms callback now lock held)
        ∙ held,
    ap (λ (l : BusyLock C). l.holder) (kept held) ∙ held,
  )
    where
      kept : lock.holder ≡ some countdown → release (rally group) lock ≡ lock
      kept held =
          ap (λ (h : Option LockHolder). if is_held_by (rally group) h then free_lock else lock)
            held

  pub holder-try_acquire :
      (h : LockHolder) (ms : Option ℕ) (callback : Option C) (now : ℕ) (lock : BusyLock C)
      → (try_acquire h ms callback now lock).1 ≡ true
      → (try_acquire h ms callback now lock).0.holder ≡ some h
  unfolding try_acquire
  holder-try_acquire h ms callback now lock = elim (Bool-cases (is_some lock.holder)) [
    | inl taken ↦ rw taken (λ acquired. absurd (cc))
    | inr free ↦ rw free (λ acquired. refl)
  ]

  -- What a timer that was set calls when it is due, and before.
  pub fire_set :
      (due now : ℕ) (end : C) (lock : BusyLock C)
      → lock.timer ≡ some (due, some end)
      → fire now lock ≡ (if leb due now then some (some end) else none)
  fire_set due now end lock set = ap (due_now now) set

  pub fire_due :
      (due now : ℕ) (end : C) (lock : BusyLock C)
      → lock.timer ≡ some (due, some end)
      → leb due now ≡ true
      → fire now lock ≡ some (some end)
  fire_due due now end lock set time = fire_set due now end lock set ∙ rw time refl

  pub fire_early :
      (due now : ℕ) (end : C) (lock : BusyLock C)
      → lock.timer ≡ some (due, some end)
      → leb due now ≡ false
      → fire now lock ≡ none
  fire_early due now end lock set early = fire_set due now end lock set ∙ rw early refl
