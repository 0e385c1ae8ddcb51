-- ===== src/Controls/Router/Route.antt =====
-- server/mux.c: adding a control leaves what a router control is bound to.
use fcp_support.Base.{ℕ, List, [], ◌∷◌, false}
use fcp_support.Base.{Res, ok, err, Ioctl, ◌≡◌, refl, ap, ◌∙◌, arith, ℤ, if_false}
use fcp_support.Base.Flow.{}
use fcp_support.Mux.{Mux, tables_ready, refresh_tables, read_mux_control}
use fcp_support.Control.{
  Props, Func, no_func, data_control, volume_control, bitmap_control, mix_control, mux_control,
  sync_control, boolean, integer, enumerated, bytes, ElemType,
}
use fcp_support.Device.{Backend}
use fcp_support.Device.Functions.{call_read_func, mux_of, keep_mux, one_value}
use fcp_support.Device.Add.{At, save_value, set_range}
use fcp_support.Device.Steps.{IsAllowed}

-- The properties that a binding is about stay, and so does a cache that is up to date.
pub record SameRoute {D : Type 0} (s t : At D) : Type 0 where
  pub name : t.0.name ≡ s.0.name
  pub offset : t.0.offset ≡ s.0.offset
  pub read_only : t.0.read_only ≡ s.0.read_only
  pub enum_count : t.0.enum_count ≡ s.0.enum_count
  pub read_func : t.0.read_func ≡ s.0.read_func
  pub write_func : t.0.write_func ≡ s.0.write_func
  pub cache : s.1.mux.dirty ≡ false → t.1.mux ≡ s.1.mux

module _ {D : Type 0} (ioctl : Ioctl D) where
  refresh_tables-clean : (m : Mux D) → m.dirty ≡ false → refresh_tables ioctl m ≡ (ok tt, m)
  unfolding refresh_tables
  refresh_tables-clean m h = if_false m.dirty _ _ h

  one_value-same : (q : Res ℕ × Backend D) → (one_value q).1 ≡ q.1
  one_value-same (ok v, x) = refl
  one_value-same (err e, x) = refl

  tables_ready-same :
      (offset : ℕ) (q : Res (Unit {0}) × Mux D) → (tables_ready ioctl offset q).1 ≡ q.1
  unfolding tables_ready
  tables_ready-same offset (err e, m) = refl
  tables_ready-same offset (ok u, m) = refl

  read_mux_control-clean :
      (offset : ℕ) (m : Mux D) → m.dirty ≡ false → (read_mux_control ioctl offset m).1 ≡ m
  unfolding read_mux_control
  read_mux_control-clean offset m h =
      tables_ready-same offset (refresh_tables ioctl m)
      ∙ ap (λ (q : Res (Unit {0}) × Mux D). q.1) (refresh_tables-clean m h)

  call_read_func-mux :
      (f : Func) (p : Props) (x : Backend D)
      → x.mux.dirty ≡ false
      → (call_read_func ioctl f p x).1.mux ≡ x.mux
  unfolding call_read_func
  call_read_func-mux no_func p x h = refl
  call_read_func-mux data_control p x h = refl
  call_read_func-mux volume_control p x h = refl
  call_read_func-mux bitmap_control p x h = refl
  call_read_func-mux sync_control p x h = refl
  call_read_func-mux mix_control p x h = ground arith
  call_read_func-mux mux_control p x h =
      ap (λ (y : Backend D). y.mux)
        (one_value-same (keep_mux x (read_mux_control ioctl p.offset (mux_of x)))
          ∙ ap (λ m. (keep_mux x (p, m)).1) (read_mux_control-clean p.offset (mux_of x) h))

  fields :
      {s t : At D}
      → t.0.name ≡ s.0.name
      → t.0.offset ≡ s.0.offset
      → t.0.read_only ≡ s.0.read_only
      → t.0.enum_count ≡ s.0.enum_count
      → t.0.read_func ≡ s.0.read_func
      → t.0.write_func ≡ s.0.write_func
      → (s.1.mux.dirty ≡ false → t.1.mux ≡ s.1.mux)
      → SameRoute s t
  fields n a b c d e f = record {
    name = n;
    offset = a;
    read_only = b;
    enum_count = c;
    read_func = d;
    write_func = e;
    cache = f;
  }

  saved : (vs : List ℤ) (p : Props) (x : Backend D) → SameRoute (p, x) (save_value vs p, x)
  saved [] p x = fields refl refl refl refl refl refl (λ h. refl)
  saved (v ∷ vs) p x =
      fields (ground arith) (ground arith) (ground arith) (ground arith) (ground arith)
        (ground arith) (λ h. refl)

  ranged : (t : ElemType) (p : Props) (x : Backend D) → SameRoute (p, x) (set_range t p, x)
  ranged boolean p x = fields refl refl refl refl refl refl (λ h. refl)
  ranged integer p x = fields refl refl refl refl refl refl (λ h. refl)
  ranged enumerated p x = fields refl refl refl refl refl refl (λ h. refl)
  ranged bytes p x = fields refl refl refl refl refl refl (λ h. refl)

  pub SameRoute-IsAllowed : IsAllowed ioctl SameRoute
  SameRoute-IsAllowed = record {
    same = λ s. fields refl refl refl refl refl refl (λ h. refl);
    trans = λ s t u a b.
        fields (b.name ∙ a.name) (b.offset ∙ a.offset) (b.read_only ∙ a.read_only)
          (b.enum_count ∙ a.enum_count) (b.read_func ∙ a.read_func) (b.write_func ∙ a.write_func)
          (λ h. b.cache (ap (λ (m : Mux (Unit {0})). m.dirty) (a.cache h) ∙ h) ∙ a.cache h);
    on_device = λ p x d. fields refl refl refl refl refl refl (λ h. refl);
    reads = λ p x. fields refl refl refl refl refl refl (call_read_func-mux p.read_func p x);
    saves_value = λ vs p x. saved vs p x;
    saves_bytes = λ b p x. fields refl refl refl refl refl refl (λ h. refl);
    ranges = λ t p x. ranged t p x;
  }
