-- ===== src/Controls/Router/Bound/Added.antt =====
-- server/mux.c: `add_mux_controls` from the empty cache on.
use mathlib.Core.Path.{subst}
use mathlib.Core.List.{append-nil}
use fcp_support.Base.{
  ℕ, zero, suc, ◌*◌, ◌<◌, List, [], ◌∷◌, ◌++◌, false, not, Option, none, some, replicate, length,
  All, Res, ok, err, ◌≡◌, refl, sym, ap, ◌∙◌, arith, inl, inr, pos, Bool-cases, length-append,
  if_true, if_false,
}
use fcp_support.Base.Flow.{
  Flow, going, returned, undefined, left, Leaves, or_return-Leaves, each-Leaves, each-Leaves_among,
}
use fcp_support.Base.Chars.{atoi}
use text.Mathlib.Text.{◌==◌ as str_eq}
use Prim.Native.String.{String}
use fcp_support.Mux.{
  Mux, invalidate_mux_cache, tables_read, refresh_tables, read_table, and_then, add_input_name,
}
use fcp_support.Fcp.Tables.{mux_info}
use fcp_support.Control.{Props}
use fcp_support.Device.{Backend, Device, on_dev}
use fcp_support.Device.Functions.{mux_of, keep_mux}
use fcp_support.Controls.{Sources, items, get}
use fcp_support.Controls.Router.{
  Routing, add_mux_controls, read_and_add, add_bound, need_or_return, cached, refreshed,
  cache_ready, device_left,
}
use fcp_support.Controls.Router.Cache.{
  init_mux_cache, info_read, with_cache, note_sources, note_control_source, note_source, new_cache,
  valid_pin,
}
use fcp_support.Controls.Router.Bound.{IsBound}
use fcp_support.Controls.Router.Bound.Built.{IsBuilt}
use fcp_support.Controls.Router.Bound.Sinks.{add_sink-Good}

-- What every added control is bound to.
abbrev pub AddsBound : {D : Type 0} → Sources D → Device D → Device D → Type 0
AddsBound sources x y =
    (added : List Props) × (y.controls ≡ x.controls ++ added)
    × All (IsBound sources y.backend.mux) added

abbrev HasInput : Mux (Unit {0}) → Type 0
HasInput m = 0 < length m.input_router_pin

module _ {D : Type 0} (sources : Sources D) where
  All-IsBound :
      (m : Mux (Unit {0})) (n : ℕ) (ps : List Props)
      → All (λ p. (p.offset < n) × IsBound sources m p) ps
      → All (IsBound sources m) ps
  All-IsBound m n [] h = tt
  All-IsBound m n (p ∷ ps) h = (h.0.1, All-IsBound m n ps h.1)

  IsBuilt-AddsBound :
      (x : Device D) (room : ℕ) (b : Routing D)
      → IsBuilt sources x room b
      → AddsBound sources x b.device
  IsBuilt-AddsBound x room b h =
      (h.added, h.controls, All-IsBound b.device.backend.mux b.output_count h.added h.bound)

  length-replicate : {A : Type 0} (n : ℕ) (a : A) → length (replicate n a) ≡ n
  length-replicate zero a = refl
  length-replicate (suc n) a = ap suc (length-replicate n a)

  -- A cache that is up to date and has an input.
  abbrev IsFilled : Device D → Type 0
  IsFilled x = (x.backend.mux.dirty ≡ false) × (0 < length x.backend.mux.input_router_pin)

  abbrev Adds : Device D → Flow (Routing D) → Type 0
  Adds x = Leaves (λ b. AddsBound sources x b.device)

  none-Adds : (x y : Device D) → y.controls ≡ x.controls → AddsBound sources x y
  none-Adds x y e = ([], e ∙ sym (append-nil x.controls), tt)

  need_or_return-Adds :
      (o : Option sources.json.Json) (x : Device D) (f : sources.json.Json → Flow (Routing D))
      → ((j : sources.json.Json) → o ≡ some j → Adds x (f j))
      → Adds x (need_or_return sources o x f)
  need_or_return-Adds none x f h = none-Adds x x refl
  need_or_return-Adds (some j) x f h = h j refl

  Leaves-map :
      {S : Type 0} (P Q : S → Type 0) (r : Flow S) → ((s : S) → P s → Q s) → Leaves P r → Leaves Q r
  Leaves-map P Q (going s) f h = f s h
  Leaves-map P Q (returned s) f h = f s h
  Leaves-map P Q undefined f h = tt

  add_bound-Adds : (x : Device D) → IsFilled x → Adds x (add_bound sources x)
  unfolding add_bound
  add_bound-Adds x (clean, inputs) =
      need_or_return-Adds (get sources sources.fam "sinks") x _ (λ sinks e_sinks.
        need_or_return-Adds (get sources sources.devmap "device-specification") x _ (λ spec e_spec.
          need_or_return-Adds (get sources spec "sources") x _ (λ all e_all.
            need_or_return-Adds (get sources spec "destinations") x _ (λ dests e_dests.
              let room = length (items sources sinks) in
              Leaves-map (IsBuilt sources x room) (λ b. AddsBound sources x b.device) _
                (IsBuilt-AddsBound x room)
                (each-Leaves_among (IsBuilt sources x room) _ (items sources sinks)
                  (λ sink b among k.
                    add_sink-Good sources x room (items sources all) (items sources dests) dests
                      sink b (all, (spec, e_spec, e_all), refl) (spec, e_spec, e_dests) refl
                      (sinks, e_sinks, among) k)
                  (items sources sinks) (λ t m. m) _
                  (record {
                    added = [];
                    controls = sym (append-nil x.controls);
                    bound = tt;
                    clean = clean;
                    slots = length-replicate (room * 3) (pos 0);
                    fixed = length-replicate room (pos 0);
                    inputs = inputs;
                  }))))))

  note_source-Leaves :
      (device_name : String) (source : sources.json.Json) (m : Mux (Unit {0}))
      → 0 < length m.input_router_pin
      → Leaves HasInput (note_source sources device_name source m)
  unfolding note_source add_input_name
  note_source-Leaves device_name source m h =
      or_return-Leaves HasInput (get sources source "name") _ m h (λ name.
        elim (Bool-cases (not (str_eq (sources.json.get_string name) device_name))) [
          | inl other ↦ rw other h
          | inr same ↦ rw same (
              or_return-Leaves HasInput (get sources source "router-pin") _ m h (λ pin.
                or_return-Leaves HasInput (valid_pin (atoi (sources.json.get_string pin))) _ m h
                  (λ p. omega (arith, length-append m.input_router_pin (_ ∷ [])))))
        ])

  note_sources-Leaves : (m : Mux (Unit {0})) → HasInput m → Leaves HasInput (note_sources sources m)
  unfolding note_sources note_control_source
  note_sources-Leaves m h =
      or_return-Leaves HasInput (get sources sources.fam "sources") _ m h (λ control.
        or_return-Leaves HasInput (get sources sources.devmap "device-specification") _ m h (λ spec.
          or_return-Leaves HasInput (get sources spec "sources") _ m h (λ devmap.
            each-Leaves HasInput _
              (λ c n k.
                or_return-Leaves HasInput (get sources c "device_name") _ n k (λ device_name.
                  or_return-Leaves HasInput (get sources c "alsa_name") _ n k (λ alsa_name.
                    each-Leaves HasInput _
                      (note_source-Leaves (sources.json.get_string device_name))
                      (items sources devmap) n k)))
              (items sources control) m h)))

  injected : {A : Type 0} {a b : A} → some a ≡ some b → a ≡ b
  injected e = cc e

  -- The device with its new cache: the same controls, and an input.
  abbrev Started : Device D → Device D → Type 0
  Started x y = (y.controls ≡ x.controls) × HasInput y.backend.mux

  with_cache-Started :
      (x : Device D) (r : Flow (Mux (Unit {0}))) (y : Device D)
      → Leaves HasInput r
      → with_cache sources x (left r) ≡ some y
      → Started x y
  with_cache-Started x (going m) y h e = subst (Started x) (injected e) (refl, h)
  with_cache-Started x (returned m) y h e = subst (Started x) (injected e) (refl, h)
  with_cache-Started x undefined y h e = absurd cc

  info_read-Started :
      (x : Device D) (q : Res (List ℕ) × Backend D) (y : Device D)
      → info_read sources x q ≡ some y
      → Started x y
  unfolding new_cache add_input_name invalidate_mux_cache
  info_read-Started x (err n, b) y e = absurd cc
  info_read-Started x (ok sizes, b) y e =
      with_cache-Started (record x { backend = b }) (note_sources sources (new_cache sources sizes))
        y (note_sources-Leaves (new_cache sources sizes) (omega arith)) e

  init_mux_cache-Started : (x y : Device D) → init_mux_cache sources x ≡ some y → Started x y
  unfolding init_mux_cache
  init_mux_cache-Started x y e = info_read-Started x (on_dev (mux_info sources.ioctl) x.backend) y e

  -- What a refresh leaves: the pins, and on success a cache that is up to date.
  abbrev SamePins : Mux D → Res (Unit {0}) × Mux D → Type 0
  SamePins m q = q.1.input_router_pin ≡ m.input_router_pin

  abbrev IsFresh : Res (Unit {0}) × Mux D → Type 0
  IsFresh (ok u, m) = m.dirty ≡ false
  IsFresh (err e, m) = Unit

  read_table-SamePins : (i : ℕ) (m : Mux D) → SamePins m (read_table sources.ioctl i m)
  unfolding read_table
  read_table-SamePins i m = ground arith

  and_then-SamePins :
      (m : Mux D) (q : Res (Unit {0}) × Mux D) (k : Mux D → Res (Unit {0}) × Mux D)
      → SamePins m q
      → ((n : Mux D) → SamePins n (k n))
      → SamePins m (and_then sources.ioctl q k)
  unfolding and_then
  and_then-SamePins m (err e, n) k h f = h
  and_then-SamePins m (ok u, n) k h f = f n ∙ h

  and_then-IsFresh :
      (q : Res (Unit {0}) × Mux D) (k : Mux D → Res (Unit {0}) × Mux D)
      → ((n : Mux D) → IsFresh (k n))
      → IsFresh (and_then sources.ioctl q k)
  unfolding and_then
  and_then-IsFresh (err e, n) k f = tt
  and_then-IsFresh (ok u, n) k f = f n

  tables_read-SamePins : (m : Mux D) → SamePins m (tables_read sources.ioctl m)
  unfolding tables_read
  tables_read-SamePins m =
      and_then-SamePins m (read_table sources.ioctl 0 m) _ (read_table-SamePins 0 m) (λ m1.
        and_then-SamePins m1 (read_table sources.ioctl 1 m1) _ (read_table-SamePins 1 m1) (λ m2.
          and_then-SamePins m2 (read_table sources.ioctl 2 m2) _ (read_table-SamePins 2 m2)
            (λ m3. refl)))

  tables_read-IsFresh : (m : Mux D) → IsFresh (tables_read sources.ioctl m)
  unfolding tables_read
  tables_read-IsFresh m = and_then-IsFresh (read_table sources.ioctl 0 m) _ (λ m1.
      and_then-IsFresh (read_table sources.ioctl 1 m1) _
        (λ m2. and_then-IsFresh (read_table sources.ioctl 2 m2) _ (λ m3. refl)))

  refresh_tables-either :
      (P : Res (Unit {0}) × Mux D → Type 0) (m : Mux D)
      → P (tables_read sources.ioctl m)
      → (m.dirty ≡ false → P (ok tt, m))
      → P (refresh_tables sources.ioctl m)
  unfolding refresh_tables
  refresh_tables-either P m h k = elim (Bool-cases m.dirty) [
    | inl dirty ↦ subst P (sym (if_true m.dirty _ _ dirty)) h
    | inr clean ↦ subst P (sym (if_false m.dirty _ _ clean)) (k clean)
  ]

  refresh_tables-SamePins : (m : Mux D) → SamePins m (refresh_tables sources.ioctl m)
  refresh_tables-SamePins m =
      refresh_tables-either (SamePins m) m (tables_read-SamePins m) (λ clean. refl)

  refresh_tables-IsFresh : (m : Mux D) → IsFresh (refresh_tables sources.ioctl m)
  refresh_tables-IsFresh m =
      refresh_tables-either IsFresh m (tables_read-IsFresh m) (λ clean. clean)

  -- With the same controls and an input, what follows a refresh adds only bound controls, if it does so
  -- from an up-to-date cache.
  cached-Adds :
      (x y : Device D) (f : Device D → Flow (Routing D))
      → Started x y
      → ((z : Device D) → Started x z → z.backend.mux.dirty ≡ false → Adds x (f z))
      → Adds x (cached sources y (refreshed sources y) f)
  cached-Adds x y f start rest =
      go (refresh_tables sources.ioctl (mux_of y.backend))
        (refresh_tables-SamePins (mux_of y.backend)) (refresh_tables-IsFresh (mux_of y.backend))
    where
      go :
          (q : Res (Unit {0}) × Mux D)
          → SamePins (mux_of y.backend) q
          → IsFresh q
          → Adds x (cached sources y (keep_mux y.backend q) f)
      go (err e, m) same fresh =
          none-Adds x (record y { backend = (keep_mux {A = Unit {0}} y.backend (tt, m)).1 }) start.0
      go (ok u, m) same fresh =
          rest (record y { backend = (keep_mux {A = Unit {0}} y.backend (tt, m)).1 })
            (start.0, subst (λ ps. 0 < length ps) (sym same) start.1) fresh

  left-AddsBound :
      (x : Device D) (r : Flow (Routing D)) (y : Device D)
      → Adds x r
      → device_left sources (left r) ≡ some y
      → AddsBound sources x y
  left-AddsBound x (going b) y h e = subst (AddsBound sources x) (injected e) h
  left-AddsBound x (returned b) y h e = subst (AddsBound sources x) (injected e) h
  left-AddsBound x undefined y h e = absurd cc

  read_and_add-Adds : (x y : Device D) → Started x y → Adds x (read_and_add sources y)
  unfolding read_and_add
  read_and_add-Adds x y start = cached-Adds x y _ start (λ z k clean.
      cached-Adds x z _ k (λ w l clean'. cached-Adds x w _ l (λ v n fresh.
        Leaves-map _ _ (add_bound sources v) (λ b a. (a.0, a.1 ∙ ap (λ cs. cs ++ a.0) n.0, a.2))
          (add_bound-Adds v (fresh, n.1)))))

  cache_ready-AddsBound :
      (x : Device D) (o : Option (Device D)) (y : Device D)
      → ((z : Device D) → o ≡ some z → Started x z)
      → cache_ready sources o ≡ some y
      → AddsBound sources x y
  cache_ready-AddsBound x none y h e = absurd cc
  cache_ready-AddsBound x (some z) y h e =
      left-AddsBound x (read_and_add sources z) y (read_and_add-Adds x z (h z refl)) e

  -- When `add_mux_controls` returns, it has only added controls, at the end of the table, and each of them
  -- is bound. It has the name of a sink of the FCP ALSA map and as many values as the cache has inputs. For
  -- a destination of the device map with the sink's device name, either it is read-only, with the input of
  -- the pin of the destination's static source as its fixed one, which is one of the inputs; or the
  -- destination has no static source, and its slot at the first rate is the first entry for the
  -- destination's pin in the table of that rate.
  pub add_mux_controls-AddsBound :
      (x y : Device D) → add_mux_controls sources x ≡ some y → AddsBound sources x y
  unfolding add_mux_controls
  add_mux_controls-AddsBound x y e =
      cache_ready-AddsBound x (init_mux_cache sources x) y (init_mux_cache-Started x) e
