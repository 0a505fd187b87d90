-- ===== src/Protocol/Rate/Codes.antt =====
-- The rate code and the rate determine each other on the nine supported rates.
use userface.Base.{
  ℕ, ◌≡◌, ◌↔◌, Bool, true, false, arith, bit_and, List, [], ◌∷◌, ◌&&◌, subst, ℕ_discrete,
}
use userface.Protocol.Rate.{
  RateInfo, rates, rate_mask, no_code, is_supported_rate, has_rate, clock_config_rate_code,
  hz_for_clock_code,
}

-- A supported rate is told by its code: the code lies in the register's field, is not the code of
-- an unsupported rate, and leads back to the rate, whatever bits stand beside the field.
pub hz-clock_config_rate_code :
    (hz other : ℕ)
    → is_supported_rate hz ≡ true
    → bit_and other rate_mask ≡ clock_config_rate_code hz
    → (hz_for_clock_code other ≡ hz)
      × (bit_and (clock_config_rate_code hz) rate_mask ≡ clock_config_rate_code hz)
unfolding is_supported_rate clock_config_rate_code hz_for_clock_code
hz-clock_config_rate_code hz other h e = ground arith

-- A rate that is not supported has the code 0xffffffff, and no supported rate has it.
pub clock_config_rate_code_iff :
    (hz : ℕ) → (clock_config_rate_code hz ≡ no_code) ↔ (is_supported_rate hz ≡ false)
unfolding is_supported_rate clock_config_rate_code
clock_config_rate_code_iff hz = ground arith

-- A test passed by every rate of the table.
unfoldable pub every_rate : List RateInfo → (ℕ → Bool) → Bool
every_rate [] p = true
every_rate (r ∷ rs) p = p r.hz && every_rate rs p

at_rate_of :
    (rs : List RateInfo) (p : ℕ → Bool) (hz : ℕ)
    → every_rate rs p ≡ true
    → has_rate rs hz ≡ true
    → p hz ≡ true
unfolding every_rate has_rate
at_rate_of [] p hz h e = ground arith
at_rate_of (r ∷ rs) p hz h e = elim (ℕ_discrete r.hz hz) [
  | yes q ↦ subst (λ x. p x ≡ true) q (ground arith)
  | no q ↦ at_rate_of rs p hz (ground arith) (ground arith)
]

pub at_rate :
    (p : ℕ → Bool) (hz : ℕ) → every_rate rates p ≡ true → is_supported_rate hz ≡ true → p hz ≡ true
unfolding is_supported_rate
at_rate p hz h e = at_rate_of rates p hz h e
