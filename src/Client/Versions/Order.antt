-- ===== src/Client/Versions/Order.antt =====
-- client/main.c: the order of firmware versions, and the latest firmware.
use fcp_support.Base.{ℕ, List, [], ◌∷◌, All, false, Bool-cases, if_true, if_false, some, ◌==◌}
use fcp_support.Base.{ℤ, pos, ltb_ℤ, ◌≡◌, refl, sym, ap, ◌∙◌, ◌↔◌, inl, inr, arith}
use mathlib.Core.Path.{subst}
use fcp_support.Firmware.{Version}
use fcp_support.Client.{FoundFirmware}
use fcp_support.Client.Versions.{
  cmp_part, firmware_cmp, found_firmware_cmp, negated, get_latest_firmware,
  get_supported_device_by_pid,
}

-- Not after: the result of the comparison is not positive.
abbrev pub IsUpTo : ℤ → Type 0
IsUpTo r = ltb_ℤ (pos 0) r ≡ false

cmp_part-reverse : (a b : ℕ) (r s : ℤ) → r ≡ negated s → cmp_part a b r ≡ negated (cmp_part b a s)
unfolding cmp_part
cmp_part-reverse a b r s e = ground (arith, e)

cmp_part_trans :
    (a b c : ℕ) (r s t : ℤ)
    → (IsUpTo r → IsUpTo s → IsUpTo t)
    → IsUpTo (cmp_part a b r)
    → IsUpTo (cmp_part b c s)
    → IsUpTo (cmp_part a c t)
unfolding cmp_part
cmp_part_trans a b c r s t rest h k = ground (arith, rest, h, k)

cmp_part-zero : (a b : ℕ) (r : ℤ) → cmp_part a b r ≡ pos 0 → (a ≡ b) × (r ≡ pos 0)
unfolding cmp_part
cmp_part-zero a b r h = ground (arith, h)

cmp_part-same : (a : ℕ) (r : ℤ) → cmp_part a a r ≡ r
unfolding cmp_part
cmp_part-same a r = ground arith

firmware_cmp_refl : (v : Version) → firmware_cmp v v ≡ pos 0
unfolding firmware_cmp
firmware_cmp_refl (a, (b, (c, d))) =
    cmp_part-same a _ ∙ cmp_part-same b _ ∙ cmp_part-same c _ ∙ cmp_part-same d _

firmware_cmp-zero : (v w : Version) → firmware_cmp v w ≡ pos 0 → v ≡ w
unfolding firmware_cmp
firmware_cmp-zero (a, (b, (c, d))) (e, (f, (g, h))) z =
    let (p, z1) = cmp_part-zero a e _ z in
    let (q, z2) = cmp_part-zero b f _ z1 in
    let (r, z3) = cmp_part-zero c g _ z2 in
    let (s, z4) = cmp_part-zero d h _ z3 in λ i. (p i, (q i, (r i, s i)))

-- A comparison of versions that a sort can go by.
pub record IsOrder (cmp : Version → Version → ℤ) : Type 0 where
  pub reverse : (v w : Version) → cmp v w ≡ negated (cmp w v)
  pub same : (v w : Version) → (cmp v w ≡ pos 0) ↔ (v ≡ w)
  pub trans : (u v w : Version) → IsUpTo (cmp u v) → IsUpTo (cmp v w) → IsUpTo (cmp u w)

-- The comparison of versions is a total order: turned around it is negated, it is 0 for equal versions
-- only, and it is transitive.
pub firmware_cmp-IsOrder : IsOrder firmware_cmp
unfolding firmware_cmp
firmware_cmp-IsOrder = record {
  reverse = λ (a, (b, (c, d))) (e, (f, (g, h))).
      cmp_part-reverse a e _ _
        (cmp_part-reverse b f _ _ (cmp_part-reverse c g _ _ (cmp_part-reverse d h _ _ refl)));
  same = λ v w. (firmware_cmp-zero v w, λ e. ap (firmware_cmp v) (sym e) ∙ firmware_cmp_refl v);
  trans = λ (a, (b, (c, d))) (e, (f, (g, h))) (k, (l, (m, n))). cmp_part_trans a e k _ _ _ (
      cmp_part_trans b f l _ _ _
        (cmp_part_trans c g m _ _ _ (cmp_part_trans d h n _ _ _ (λ p q. refl))));
}

-- Each entry is followed by entries that do not go before it.
unfoldable pub IsSorted : List FoundFirmware → Type 0
IsSorted [] = Unit {0}
IsSorted (x ∷ xs) = All (λ y. IsUpTo (found_firmware_cmp x y)) xs × IsSorted xs

-- The version of the first is not older than that of the second, if that is for the product.
abbrev pub IsAsNew : ℕ → FoundFirmware → FoundFirmware → Type 0
IsAsNew pid x y =
    y.firmware.container_pid ≡ pid
    → ltb_ℤ (firmware_cmp x.firmware.container_version y.firmware.container_version) (pos 0) ≡ false

negated-IsUpTo : (r : ℤ) → IsUpTo (negated r) → ltb_ℤ r (pos 0) ≡ false
negated-IsUpTo r h = ground (arith, h)

after-IsAsNew :
    (pid : ℕ) (x y : FoundFirmware)
    → x.firmware.container_pid ≡ pid
    → IsUpTo (found_firmware_cmp x y)
    → IsAsNew pid x y
unfolding found_firmware_cmp
after-IsAsNew pid x y e h k =
    negated-IsUpTo (firmware_cmp x.firmware.container_version y.firmware.container_version)
      (sym (ap (λ r. ltb_ℤ (pos 0) r) same_place) ∙ h)
  where
    same_place :
        found_firmware_cmp x y
        ≡ negated (firmware_cmp x.firmware.container_version y.firmware.container_version)
    same_place =
        ap
          (λ n.
            cmp_part (get_supported_device_by_pid n)
              (get_supported_device_by_pid y.firmware.container_pid)
              (negated (firmware_cmp x.firmware.container_version y.firmware.container_version)))
          (e ∙ sym k)
        ∙ cmp_part-same (get_supported_device_by_pid y.firmware.container_pid) _

All-map :
    {P Q : FoundFirmware → Type 0}
    → ((y : FoundFirmware) → P y → Q y)
    → (xs : List FoundFirmware) → All P xs
    → All Q xs
All-map f [] u = tt
All-map f (x ∷ xs) (p, ps) = (f x p, All-map f xs ps)

-- In a sorted list, the firmware that is found for a product is for it, and no firmware of the list for
-- the product is newer.
pub get_latest_firmware-newest :
    (pid : ℕ) (xs : List FoundFirmware) (x : FoundFirmware)
    → IsSorted xs
    → get_latest_firmware pid xs ≡ some x
    → (x.firmware.container_pid ≡ pid) × All (IsAsNew pid x) xs
unfolding get_latest_firmware IsSorted
get_latest_firmware-newest pid [] x sorted e = absurd cc
get_latest_firmware-newest pid (y ∷ ys) x (first, sorted) e =
    elim (Bool-cases (y.firmware.container_pid == pid)) [
      | inl here ↦
          subst (λ z. (z.firmware.container_pid ≡ pid) × All (IsAsNew pid z) (y ∷ ys))
            (is_head (sym (if_true (y.firmware.container_pid == pid) _ _ here) ∙ e))
            (ground (arith, here), (as_new_as_itself, after (ground (arith, here))))
      | inr other ↦
          let (same, newest) =
            get_latest_firmware-newest pid ys x sorted
              (sym (if_false (y.firmware.container_pid == pid) _ _ other) ∙ e) in
          (same, (λ k. ground (arith, other, k), newest))
    ]
  where
    is_head : some y ≡ some x → y ≡ x
    is_head h = cc h

    as_new_as_itself : IsAsNew pid y y
    as_new_as_itself k = ap (λ r. ltb_ℤ r (pos 0)) (firmware_cmp_refl y.firmware.container_version)

    after : y.firmware.container_pid ≡ pid → All (IsAsNew pid y) ys
    after h = All-map (λ z up. after-IsAsNew pid y z h up) ys first
