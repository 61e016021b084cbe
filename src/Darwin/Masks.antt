-- ===== src/Darwin/Masks.antt =====
-- The IPv4 masks that `maskBits` of internal/darwinnet/route.go accepts.
use nordmac.Base.{
  ℕ, zero, suc, ◌-◌, ◌/◌, ◌^◌, ◌≤◌, ◌<◌, Bool, true, false, ◌&&◌, ◌==◌, nat_eq, ==-true, ok, err,
  message, ite, ap, if◌then◌else◌, ◌≡◌, ◌↔◌, refl, sym, subst, ◌∙◌, arith, ℕ_discrete,
}
use nordmac.Base.Triples.{ok-injective}
use nordmac.Darwin.Fields.{ones_count, canonical, mask_bits}

-- A test of every number below a bound.
upto : (ℕ → Bool) → ℕ → Bool
upto p zero = true
upto p (suc k) = p k && upto p k

upto-at : (p : ℕ → Bool) (k n : ℕ) → upto p k ≡ true → n < k → p n ≡ true
unfolding upto
upto-at p zero n h b = absurd (omega arith)
upto-at p (suc k) n h b = elim (ℕ_discrete n k) [
  | yes e ↦ subst (λ m. p m ≡ true) (sym e) (ground (arith, h))
  | no d ↦ upto-at p k n (ground (arith, h)) (omega arith)
]

-- The mask of a prefix length, as a count of addresses.
abbrev pub netmask : ℕ → ℕ
netmask n = 2 ^ 32 - 2 ^ (32 - n)

abbrev is_mask_of : ℕ → Bool
is_mask_of n = canonical n == netmask n && ones_count 32 (canonical n) == n

is_mask_of-upto : upto is_mask_of 33 ≡ true
unfolding upto canonical ones_count ℕ_discrete
is_mask_of-upto = refl

canonical-lem : (n : ℕ) → n ≤ 32 → (canonical n ≡ netmask n) × (ones_count 32 (canonical n) ≡ n)
canonical-lem n h =
    let t = upto-at is_mask_of 33 n is_mask_of-upto (omega arith) in
    (
      ==-true (canonical n) (netmask n) (ground (arith, t)),
      ==-true (ones_count 32 (canonical n)) n (ground (arith, t)),
    )

ones_count-le : (w n : ℕ) → ones_count w n ≤ w
unfolding ones_count
ones_count-le zero n = omega arith
ones_count-le (suc w) n = omega (arith, ones_count-le w (n / 2))

chosen :
    (m k n : ℕ) (d : Dec (m ≡ canonical k))
    → (if ite d true false then ok k else err (message "non-contiguous IPv4 route mask")) ≡ ok n
    → (m ≡ canonical k) × (k ≡ n)
chosen m k n (yes e) h = (e, ok-injective _ _ h)
chosen m k n (no d) h = cc

accepted :
    (m k n : ℕ)
    → k ≡ n
    → (d : Dec (m ≡ canonical k)) → m ≡ canonical n
    → (if ite d true false then ok k else err (message "non-contiguous IPv4 route mask")) ≡ ok n
accepted m k n q (yes e) at = ap ok q
accepted m k n q (no d) at = absurd (d (at ∙ ap canonical (sym q)))

-- `maskBits` accepts a mask with the length n exactly when n is at most 32 and the mask is that of
-- n leading ones, 2 ^ 32 - 2 ^ (32 - n).
pub mask_bits-netmask : (m n : ℕ) → (mask_bits m ≡ ok n) ↔ ((n ≤ 32) × (m ≡ netmask n))
unfolding mask_bits
mask_bits-netmask m n =
    let k = ones_count 32 m in
    (
      λ h.
          let (e, q) = chosen m k n (ℕ_discrete m (canonical k)) h in
          let le : k ≤ 32 = ones_count-le 32 m in
          (subst (λ x. x ≤ 32) q le, e ∙ (canonical-lem k le).0 ∙ ap netmask q),
      λ (le, e).
          let (a, b) = canonical-lem n le in
          let at : m ≡ canonical n = e ∙ sym a in
          let count : ones_count 32 m ≡ n = ap (ones_count 32) at ∙ b in
          accepted m (ones_count 32 m) n count (ℕ_discrete m (canonical (ones_count 32 m))) at,
    )
