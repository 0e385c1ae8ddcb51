-- ===== src/Examples/Router.antt =====
-- server/mux.c and server/mix.c at a small router and a small mixer.
use fcp_support.Base.{
  ℕ, ◌+◌, zero, suc, ◌<◌, List, [], ◌∷◌, false, ok, Ioctl, ◌≡◌, ◌≢◌, refl, arith,
}
use fcp_support.Base.{pos, negsuc, some, get_or, ◌⊎◌, length}
use fcp_support.Mux.{
  Mux, entry_sink, set_source, find_router_slot, write_mux_control, read_mux_control, write_rate,
}
use fcp_support.Fcp.{fcp_cmd}
use fcp_support.Fcp.Tables.{mux_write}
use fcp_support.Mux.Entry.{find_router_slot_lem, IsSlot}
use fcp_support.Mux.Write.{sinks, write_mux_control-sinks}
use fcp_support.Mux.ReadBack.{write-read_mux_control}
use fcp_support.Mix.{Mixer, get_cached_mix_values, write_mix_control, read_mix_control}
use fcp_support.Mix.ReadBack.{write-read_mix_control}

-- A device that accepts everything.
abbrev quiet : Ioctl (Unit {0})
quiet op req size d = (ok [], d)

abbrev table : List ℕ
table = 0x5001 ∷ 0x6002 ∷ []

find_router_slot_example :
    ((i : ℕ) × (find_router_slot table 2 0 ≡ pos (0 + i)) × IsSlot table 2 i)
    ⊎ ((find_router_slot table 2 0 ≡ negsuc 0)
        × ((j : ℕ) → j < length table → entry_sink (get_or table j 0) ≢ 2))
find_router_slot_example = find_router_slot_lem table 2 0

abbrev router : List (List ℕ) → Mux (Unit {0})
router tables = record {
  dev = tt;
  mux_size = 2 ∷ 2 ∷ 2 ∷ [];
  values = tables;
  input_router_pin = 0 ∷ 5 ∷ 9 ∷ [];
  output_router_slots = pos 1 ∷ pos 1 ∷ pos 1 ∷ [];
  output_fixed_input = negsuc 0 ∷ [];
  dirty = false;
}

abbrev before : Mux (Unit {0})
before = router (table ∷ table ∷ table ∷ [])

abbrev routed : List ℕ
routed = 0x5001 ∷ 0x9002 ∷ []

abbrev after : Mux (Unit {0})
after = router (routed ∷ routed ∷ routed ∷ [])

write_runs : write_mux_control quiet 0 2 before ≡ some (ok tt, after)
unfolding write_mux_control write_rate mux_write fcp_cmd set_source
write_runs = refl

no_earlier :
    (j : ℕ) → j < 2 → get_or before.input_router_pin j 0 ≢ get_or before.input_router_pin 2 0
no_earlier zero l e = absurd (omega arith)
no_earlier (suc zero) l e = absurd (omega arith)
no_earlier (suc (suc j)) l e = absurd (omega arith)

write_mux_control-sinks_example : sinks after ≡ sinks before
write_mux_control-sinks_example = write_mux_control-sinks quiet 0 2 before (ok tt) after write_runs

write-read_mux_control_example : read_mux_control quiet 0 after ≡ (ok 2, after)
write-read_mux_control_example =
    write-read_mux_control quiet 0 1 2 before (ok tt) after
      (record {
        clean = refl;
        not_fixed = refl;
        bound = refl;
        cached = omega arith;
        inside = omega arith;
      })
      (omega arith) no_earlier write_runs

abbrev mixer : Mixer (Unit {0})
mixer = record {
  dev = tt;
  input_count = 2;
  cache = some (record { values = 10 ∷ 20 ∷ []; dirty = false } ∷ []);
}

write-read_mix_control_example :
    read_mix_control quiet 1 (write_mix_control quiet 1 7 mixer).1
    ≡ (ok 7, (write_mix_control quiet 1 7 mixer).1)
unfolding get_cached_mix_values
write-read_mix_control_example =
    write-read_mix_control quiet 1 7 mixer mixer (10 ∷ 20 ∷ []) refl (omega arith)
