-- ===== src/Fcp/Devmap/Whole.antt =====
-- server/fcp.c: `fcp_devmap_read` gets the device map as a whole.
use fcp_support.Base.{
  ℕ, zero, suc, ◌+◌, ◌-◌, ◌*◌, ◌/◌, ◌%◌, ◌^◌, ◌≤◌, ◌<◌, List, [], ◌++◌, Res, ok, Ioctl, continue,
}
use fcp_support.Base.{
  ◌≡◌, refl, sym, ap, ◌∙◌, inl, inr, arith, tests, Bool-cases, ltb, true, if◌then◌else◌,
}
use fcp_support.Base.{
  take, drop, length, take_all, take-add, length-take, le16, le32, get_le16, ltb→lt,
}
use fcp_support.Fcp.Effects.{fcp_cmd_small}
use fcp_support.Fcp.{fcp_cmd, opcode_devmap_info, opcode_devmap_read}
use fcp_support.Fcp.Devmap.{devmap_block_size, devmap_blocks, devmap_read}

-- The device tells the size of its map, and gives the bytes asked for of each block, in any state.
pub record ServesDevmap {D : Type 0} (ioctl : Ioctl D) (contents : List ℕ) : Type 0 where
  pub info : (d : D) → (ioctl opcode_devmap_info [] 4 d).0 ≡ ok (le16 0 ++ le16 (length contents))
  pub block :
      (k n : ℕ) (d : D)
      → k < 2 ^ 16
      → (ioctl opcode_devmap_read (le32 k) n d).0
        ≡ ok (take n (drop (k * devmap_block_size) contents))

module _ {D : Type 0} (ioctl : Ioctl D) (contents : List ℕ)
    (laws : ServesDevmap ioctl contents) where
  block_read :
      (offset n : ℕ) (d : D)
      → offset % devmap_block_size ≡ 0
      → offset < 2 ^ 16
      → n < 2 ^ 16
      → (fcp_cmd ioctl opcode_devmap_read (le32 (offset / devmap_block_size)) n d).0
        ≡ ok (take n (drop offset contents))
  block_read offset n d aligned near fits =
      ap (λ (r : Res (List ℕ) × D). r.0)
        (fcp_cmd_small ioctl opcode_devmap_read (le32 (offset / devmap_block_size)) n d
          (omega arith) fits)
      ∙ rw (laws.block (offset / devmap_block_size) n d (omega arith)) (
          ap ok (
            take_all n (take n (drop (offset / devmap_block_size * devmap_block_size) contents)) (
              omega (
                arith,
                length-take n (drop (offset / devmap_block_size * devmap_block_size) contents),
              ))
            ∙ ap (λ (k : ℕ). take n (drop k contents))
                {x = offset / devmap_block_size * devmap_block_size} {y = offset} (omega arith)))

  abbrev asked : ℕ → ℕ
  asked offset =
      if ltb (length contents) (offset + devmap_block_size)
      then length contents - offset
      else devmap_block_size

  asked-small : (offset : ℕ) → length contents < 2 ^ 16 → asked offset < 2 ^ 16
  asked-small offset small = ground (arith, small)

  -- What the next block adds to what is there.
  grown :
      (offset : ℕ)
      → offset < length contents
      → take offset contents ++ take (asked offset) (drop offset contents)
        ≡ take (offset + devmap_block_size) contents
  grown offset more = elim (Bool-cases (ltb (length contents) (offset + devmap_block_size))) [
    | inl last ↦ rw last (
        sym (take-add offset (length contents - offset) contents)
        ∙ take_all _ contents (omega arith)
        ∙ sym (take_all (offset + devmap_block_size) contents (omega tests)))
    | inr full ↦ rw full (sym (take-add offset devmap_block_size contents))
  ]

  devmap_blocks_more :
      (fuel offset : ℕ) (acc : List ℕ) (d : D)
      → ltb offset (length contents) ≡ true
      → devmap_blocks ioctl (suc fuel) (length contents) offset acc d
        ≡ continue
            (λ block.
              devmap_blocks ioctl fuel
                (length contents)
                (offset + devmap_block_size)
                (acc ++ block))
            (fcp_cmd ioctl opcode_devmap_read
              (le32 (offset / devmap_block_size))
              (asked offset)
              d).0
            (fcp_cmd ioctl opcode_devmap_read
              (le32 (offset / devmap_block_size))
              (asked offset)
              d).1
  unfolding devmap_blocks
  devmap_blocks_more fuel offset acc d h = rw (h, devmap_blocks) refl

  devmap_blocks-whole :
      (fuel offset : ℕ) (acc : List ℕ) (d : D)
      → length contents < 2 ^ 16
      → offset % devmap_block_size ≡ 0
      → length contents ≤ offset + fuel * devmap_block_size
      → acc ≡ take offset contents
      → (devmap_blocks ioctl fuel (length contents) offset acc d).0 ≡ ok contents
  unfolding devmap_blocks
  devmap_blocks-whole zero offset acc d small aligned enough e =
      ap ok (e ∙ take_all offset contents (omega arith))
  devmap_blocks-whole (suc fuel) offset acc d small aligned enough e =
      elim (Bool-cases (ltb offset (length contents))) [
        | inr over ↦ rw (over, devmap_blocks) (ap ok (e ∙ take_all offset contents (omega tests)))
        | inl more ↦
            rw
              (
                devmap_blocks_more fuel offset acc d more,
                block_read offset (asked offset) d aligned (omega tests) (asked-small offset small),
              )
              (devmap_blocks-whole fuel (offset + devmap_block_size)
                (acc ++ take (asked offset) (drop offset contents)) _ small (omega arith)
                (omega arith)
                (ap (λ t. t ++ take (asked offset) (drop offset contents)) e
                  ∙ grown offset (ltb→lt _ _ more)))
      ]

  -- A device map of fewer than 2 ^ 16 bytes, from a device that tells its size and gives its blocks, is
  -- read in full and in order.
  pub devmap_read-whole : (d : D) → length contents < 2 ^ 16 → (devmap_read ioctl d).0 ≡ ok contents
  unfolding devmap_read fcp_cmd
  devmap_read-whole d small = rw (laws.info d) (
      ap (λ (n : ℕ). (devmap_blocks ioctl 65 n 0 [] (ioctl opcode_devmap_info [] 4 d).1).0)
        {x = get_le16 (le16 (length contents))} {y = length contents} (omega arith)
      ∙ devmap_blocks-whole 65 0 [] (ioctl opcode_devmap_info [] 4 d).1 small (omega arith)
          (omega arith) refl)
