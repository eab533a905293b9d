-- ===== src/Censor/Tiers.antt =====
-- Tiers are switched off and on one by one.
use core_cpp_archive.Censor.Sensor.{CensorSensor, disable_tier, enable_tier, has_tier, insert_tier}
use core_cpp_archive.Prelude.{
  Bool-cases, List, [], ap, arith, bytes_eq, false, if◌then◌else◌, inl, inr, int_beq_iff, int_eq,
  loc_eq, nat_eq, reject, true, ℕ, ℤ, ◌==◌, ◌∙◌, ◌∷◌, ◌≡◌, ◌≤◌,
}

has_tier-reject :
    (z other : ℤ) (tiers : List ℤ)
    → has_tier other (reject (λ t. t == z) tiers)
      ≡ (if other == z then false else has_tier other tiers)
unfolding has_tier
has_tier-reject z other [] = ground arith
has_tier-reject z other (t ∷ tiers) = ground (
  arith,
  int_beq_iff t z,
  int_beq_iff t other,
  int_beq_iff other z,
  has_tier-reject z other tiers,
)

has_tier-same :
    (z other : ℤ) (tiers : List ℤ) → (other == z) ≡ true → has_tier other tiers ≡ has_tier z tiers
has_tier-same z other tiers e = ap (λ t. has_tier t tiers) ((int_beq_iff other z).0 e)

has_tier-front :
    (z other : ℤ) (tiers : List ℤ)
    → has_tier other (z ∷ tiers) ≡ (if other == z then true else has_tier other tiers)
unfolding has_tier
has_tier-front z other tiers = ground (arith, int_beq_iff z other, int_beq_iff other z)

has_tier-insert :
    (z other : ℤ) (tiers : List ℤ)
    → has_tier other (insert_tier z tiers) ≡ (if other == z then true else has_tier other tiers)
unfolding insert_tier
has_tier-insert z other tiers = elim (Bool-cases (has_tier z tiers)) [
  | inl e ↦ elim (Bool-cases (other == z)) [
    | inl same ↦ rw (e, same) (has_tier-same z other tiers same ∙ e)
    | inr f ↦ rw (e, f)
  ]
  | inr e ↦ rw e (has_tier-front z other tiers)
]

-- After a tier of the enumeration is disabled it is off and every other tier is as before; after it
-- is enabled again it is on.
pub disable_tier-enable_tier :
    (tier : ℕ) (other : ℤ) (s : CensorSensor)
    → tier ≤ 4
    → (has_tier other (disable_tier tier s).enabled_tiers
        ≡ (if other == ℤ.pos tier then false else has_tier other s.enabled_tiers))
      × (has_tier other (enable_tier tier (disable_tier tier s)).enabled_tiers
          ≡ (if other == ℤ.pos tier then true else has_tier other s.enabled_tiers))
unfolding disable_tier enable_tier
disable_tier-enable_tier tier other s h =
    let z = ℤ.pos tier in
    ground (
      arith,
      has_tier-reject z other s.enabled_tiers,
      has_tier-insert z other (reject (λ t. t == z) s.enabled_tiers),
    )
