-- ===== src/Examples/Devmap.antt =====
-- server/fcp.c at a device with a small device map.
use fcp_support.Base.{
  ℕ, ◌*◌, ◌^◌, ◌<◌, List, [], ◌∷◌, ◌++◌, take, drop, le16, le32, get_le32, ◌==◌, if◌then◌else◌,
}
use fcp_support.Base.{◌≡◌, refl, ap, arith, ok, Res, Ioctl}
use fcp_support.Fcp.{opcode_devmap_info}
use fcp_support.Fcp.Devmap.{devmap_read, devmap_block_size}
use fcp_support.Fcp.Devmap.Whole.{ServesDevmap, devmap_read-whole}

abbrev contents : List ℕ
contents = 10 ∷ 20 ∷ 30 ∷ []

abbrev device : Ioctl (Unit {0})
device op req n d =
    if op == opcode_devmap_info
    then (ok (le16 0 ++ le16 3), d)
    else (ok (take n (drop (get_le32 req * devmap_block_size) contents)), d)

device-ServesDevmap : ServesDevmap device contents
device-ServesDevmap = record { info = λ d. refl; block = served }
  where
    served :
        (k n : ℕ) (d : Unit {0})
        → k < 2 ^ 16
        → Path
            (Res (List ℕ))
            (ok (take n (drop (get_le32 (le32 k) * devmap_block_size) contents)))
            (ok (take n (drop (k * devmap_block_size) contents)))
    served k n d h =
        ap (λ (b : ℕ). ok (take n (drop (b * devmap_block_size) contents))) {x = get_le32 (le32 k)}
          {y = k} (omega arith)

devmap_read-whole_example : (devmap_read device tt).0 ≡ ok (10 ∷ 20 ∷ 30 ∷ [])
devmap_read-whole_example = devmap_read-whole device contents device-ServesDevmap tt (omega arith)
