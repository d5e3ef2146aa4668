-- ===== src/Ingest/Order.antt =====
-- The abstract view of registration events: the time of the latest one and the state that it left.
use flownexus.Prelude.{
  ◌≡◌, refl, Bool, true, false, not, Option, none, some, List, [], ◌∷◌, if◌then◌else◌, arith,
  Bool-cases, inl, inr, ◌⊎◌,
}
use flownexus.Prelude.Int.{ℤ, pos, negsuc, ltb_ℤ, max_ℤ}
use flownexus.Table.Search.{Elem}
use flownexus.Ingest.Registration.{RegistrationEvent, is_unregistered, is_older, newer}

-- The time of the latest event, and whether the endpoint is registered.
abbrev pub View : Type 0
View = Option ℤ × Bool

-- The state that an event tells.
abbrev pub tells : RegistrationEvent → Bool
tells event = not (is_unregistered event)

-- An event counts if it is not older than the latest one.
abbrev pub step : RegistrationEvent × ℤ → View → View
step (event, time) (latest, flag) =
    (newer latest (some time), if is_older time latest then flag else tells event)

abbrev pub run : List (RegistrationEvent × ℤ) → View → View
run [] v = v
run (e ∷ rest) v = run rest (step e v)

pub newer_assoc : (a b c : Option ℤ) → newer (newer a b) c ≡ newer a (newer b c)
newer_assoc none b c = refl
newer_assoc (some a) none c = refl
newer_assoc (some a) (some b) none = refl
newer_assoc (some (pos a)) (some (pos b)) (some (pos c)) = ground arith
newer_assoc (some (pos a)) (some (pos b)) (some (negsuc c)) = ground arith
newer_assoc (some (pos a)) (some (negsuc b)) (some (pos c)) = ground arith
newer_assoc (some (pos a)) (some (negsuc b)) (some (negsuc c)) = ground arith
newer_assoc (some (negsuc a)) (some (pos b)) (some (pos c)) = ground arith
newer_assoc (some (negsuc a)) (some (pos b)) (some (negsuc c)) = ground arith
newer_assoc (some (negsuc a)) (some (negsuc b)) (some (pos c)) = ground arith
newer_assoc (some (negsuc a)) (some (negsuc b)) (some (negsuc c)) = ground arith

le_trans : (a b c : ℤ) → ltb_ℤ b a ≡ false → ltb_ℤ c b ≡ false → ltb_ℤ c a ≡ false
le_trans (pos a) (pos b) (pos c) p q = ground arith
le_trans (pos a) (pos b) (negsuc c) p q = ground arith
le_trans (pos a) (negsuc b) (pos c) p q = ground arith
le_trans (pos a) (negsuc b) (negsuc c) p q = ground arith
le_trans (negsuc a) (pos b) (pos c) p q = ground arith
le_trans (negsuc a) (pos b) (negsuc c) p q = ground arith
le_trans (negsuc a) (negsuc b) (pos c) p q = ground arith
le_trans (negsuc a) (negsuc b) (negsuc c) p q = ground arith

le_refl : (a : ℤ) → ltb_ℤ a a ≡ false
le_refl (pos a) = ground arith
le_refl (negsuc a) = ground arith

older_asym : (a b : ℤ) → ltb_ℤ b a ≡ true → ltb_ℤ a b ≡ false
older_asym (pos a) (pos b) p = ground arith
older_asym (pos a) (negsuc b) p = refl
older_asym (negsuc a) (pos b) p = ground arith
older_asym (negsuc a) (negsuc b) p = ground arith

max-older : (a b : ℤ) → ltb_ℤ b a ≡ true → max_ℤ a b ≡ a
max-older a b p = rw (older_asym a b p) refl

max-newer : (a b : ℤ) → ltb_ℤ b a ≡ false → max_ℤ a b ≡ b
max-newer (pos a) (pos b) p = ground arith
max-newer (pos a) (negsuc b) p = ground arith
max-newer (negsuc a) (pos b) p = refl
max-newer (negsuc a) (negsuc b) p = ground arith

-- A time that is not older than any time of the events.
abbrev pub NotOlder : ℤ → List (RegistrationEvent × ℤ) → Type 0
NotOlder t evs = (e : RegistrationEvent × ℤ) → Elem e evs → ltb_ℤ t e.1 ≡ false

-- The time and the state are those of one of the events.
abbrev pub Told : ℤ → Bool → List (RegistrationEvent × ℤ) → Type 0
Told t flag evs =
    (event : RegistrationEvent) × (Elem {A = RegistrationEvent × ℤ} (event, t) evs)
    × (flag ≡ tells event)

abbrev Newest : ℤ → Bool → List (RegistrationEvent × ℤ) → View → Type 0
Newest t0 f0 evs v =
    (t : ℤ) × (flag : Bool) × (v ≡ (some t, flag))
    × (((t ≡ t0) × (flag ≡ f0)) ⊎ Told t flag evs)
    × (ltb_ℤ t t0 ≡ false)
    × NotOlder t evs

NotOlder-cons :
    (t : ℤ) (e : RegistrationEvent × ℤ) (evs : List (RegistrationEvent × ℤ))
    → ltb_ℤ t e.1 ≡ false
    → NotOlder t evs
    → NotOlder t (e ∷ evs)
NotOlder-cons t e evs p rest x (inl same) = rw same p
NotOlder-cons t e evs p rest x (inr h) = rest x h

Newest-older :
    (t0 : ℤ) (f0 : Bool) (event : RegistrationEvent) (time : ℤ) (evs : List (RegistrationEvent × ℤ))
    (v : View)
    → ltb_ℤ time t0 ≡ true
    → Newest t0 f0 evs v
    → Newest t0 f0 ((event, time) ∷ evs) v
Newest-older t0 f0 event time evs v older (t, flag, e, origin, above, all) = (
  t,
  flag,
  e,
  elim origin [ inl start ↦ inl start | inr (k, i, q) ↦ inr (k, inr i, q) ],
  above,
  NotOlder-cons t (event, time) evs (le_trans time t0 t (older_asym t0 time older) above) all,
)

Newest-newer :
    (t0 : ℤ) (f0 : Bool) (event : RegistrationEvent) (time : ℤ) (evs : List (RegistrationEvent × ℤ))
    (v : View)
    → ltb_ℤ time t0 ≡ false
    → Newest time (tells event) evs v
    → Newest t0 f0 ((event, time) ∷ evs) v
Newest-newer t0 f0 event time evs v newer (t, flag, e, origin, above, all) = (
  t,
  flag,
  e,
  elim origin [
    | inl (start, told) ↦ inr (event, inl (rw start refl), told)
    | inr (k, i, q) ↦ inr (k, inr i, q)
  ],
  le_trans t0 time t newer above,
  NotOlder-cons t (event, time) evs above all,
)

run_from :
    (evs : List (RegistrationEvent × ℤ)) (t0 : ℤ) (f0 : Bool)
    → Newest t0 f0 evs (run evs (some t0, f0))
run_from [] t0 f0 = (t0, f0, refl, inl (refl, refl), le_refl t0, λ e h. absurd h)
run_from ((event, time) ∷ rest) t0 f0 = elim (Bool-cases (ltb_ℤ time t0)) [
  | inl older ↦
      rw (older, max-older t0 time older)
        (Newest-older t0 f0 event time rest (run rest (some t0, f0)) older (run_from rest t0 f0))
  | inr newer ↦
      rw (newer, max-newer t0 time newer)
        (Newest-newer t0 f0 event time rest (run rest (some time, tells event)) newer
          (run_from rest time (tells event)))
]

-- Where no event was there before, the state is what one of the newest events tells.
pub run_newest :
    (e : RegistrationEvent × ℤ) (evs : List (RegistrationEvent × ℤ)) (f : Bool)
    → (t : ℤ) × (flag : Bool) × (run (e ∷ evs) (none, f) ≡ (some t, flag))
      × Told t flag (e ∷ evs)
      × NotOlder t (e ∷ evs)
run_newest (event, time) evs f =
    let (t, flag, e, origin, above, all) = run_from evs time (tells event) in
    (
      t,
      flag,
      e,
      elim origin [
        | inl (start, told) ↦ (event, inl (rw start refl), told)
        | inr (k, i, q) ↦ (k, inr i, q)
      ],
      NotOlder-cons t (event, time) evs above all,
    )
