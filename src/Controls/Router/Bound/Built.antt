-- ===== src/Controls/Router/Bound/Built.antt =====
-- server/mux.c: one more output keeps every control bound.
use Prim.Native.String.{String}
use mathlib.Core.Path.{subst}
use mathlib.Core.List.{append_assoc}
use fcp_support.Base.{ℕ, ◌+◌, ◌*◌, ◌<◌, List, [], ◌∷◌, ◌++◌, Bool, false, length, All}
use fcp_support.Base.{◌≡◌, sym, ap, ◌∙◌, arith, ℤ, length-set}
use fcp_support.Base.Flow.{}
use fcp_support.Mux.{Mux}
use fcp_support.Control.{Props, mux_control}
use fcp_support.Device.{Device}
use fcp_support.Device.Add.{At, add_control, add_user_control}
use fcp_support.Device.Steps.{add_user_control-Respects}
use fcp_support.Controls.{Sources}
use fcp_support.Controls.Router.{sink_name, Routing, output_added, mux_props, bind_output}
use fcp_support.Controls.Router.Route.{SameRoute, SameRoute-IsAllowed}
use fcp_support.Controls.Router.Bound.{IsBound, bind_output-IsBound, length-set_slots}

-- The controls added since `x`, and the arrays behind them.
pub record IsBuilt {D : Type 0} (sources : Sources D) (x : Device D) (room : ℕ) (b : Routing D)
    : Type 0 where
  pub added : List Props
  pub controls : b.device.controls ≡ x.controls ++ added
  pub bound : All (λ p. (p.offset < b.output_count) × IsBound sources b.device.backend.mux p) added
  pub clean : b.device.backend.mux.dirty ≡ false
  pub slots : length b.device.backend.mux.output_router_slots ≡ room * 3
  pub fixed : length b.device.backend.mux.output_fixed_input ≡ room
  pub inputs : 0 < length b.device.backend.mux.input_router_pin

All-snoc {ℓ κ} :
    {A : Type ℓ} (P Q : A → Type κ) (xs : List A) (y : A)
    → ((x : A) → P x → Q x)
    → All P xs
    → Q y
    → All Q (xs ++ y ∷ [])
All-snoc P Q [] y f h k = (k, tt)
All-snoc P Q (x ∷ xs) y f h k = (f x h.0, All-snoc P Q xs y f h.1 k)

module _ {D : Type 0} (sources : Sources D) (x : Device D) (room : ℕ) where
  -- An output that is bound as its control says keeps all controls bound.
  pub output_added-IsBuilt :
      (name : String) (ro : Bool) (bind : Mux (Unit {0}) → Mux (Unit {0})) (b : Routing D)
      (f s0 s1 s2 : ℤ)
      → bind b.device.backend.mux ≡ bind_output b.device.backend.mux b.output_count f s0 s1 s2
      → IsBuilt sources x room b
      → ((q : Props)
          → q.name ≡ sink_name name
          → q.offset ≡ b.output_count
          → q.read_only ≡ ro
          → q.enum_count ≡ length b.device.backend.mux.input_router_pin
          → q.read_func ≡ mux_control
          → q.write_func ≡ mux_control
          → IsBound sources (bind_output b.device.backend.mux b.output_count f s0 s1 s2) q)
      → IsBuilt sources x room (output_added sources name ro bind b)
  unfolding output_added mux_props add_control
  output_added-IsBuilt name ro bind b f s0 s1 s2 e h fits = record {
    added = h.added ++ q ∷ [];
    controls = ap (λ cs. cs ++ q ∷ []) h.controls ∙ append_assoc x.controls h.added (q ∷ []);
    bound =
        subst
          (λ n.
            All (λ p. (p.offset < b.output_count + 1) × IsBound sources n p) (h.added ++ q ∷ []))
          (sym mux_same)
          (All-snoc _ _ h.added q
            (λ p k.
              (omega arith, bind_output-IsBound sources m p b.output_count f s0 s1 s2 k.0 k.1))
            h.bound
            (
              rw (route.offset) (omega arith),
              fits q route.name route.offset route.read_only route.enum_count route.read_func
                  route.write_func,
            ));
    clean = ap (λ (n : Mux (Unit {0})). n.dirty) mux_same ∙ h.clean;
    slots =
        ap (λ (n : Mux (Unit {0})). length n.output_router_slots) mux_same
        ∙ length-set_slots m.output_router_slots b.output_count s0 s1 s2
        ∙ h.slots;
    fixed =
        ap (λ (n : Mux (Unit {0})). length n.output_fixed_input) mux_same
        ∙ length-set m.output_fixed_input b.output_count f
        ∙ h.fixed;
    inputs = subst (λ (n : Mux (Unit {0})). 0 < length n.input_router_pin) (sym mux_same) h.inputs;
  }
    where
      m : Mux (Unit {0})
      m = b.device.backend.mux

      start : At D
      start = (
        mux_props name b.output_count ro (length m.input_router_pin),
        record (b.device.backend) { mux = bind m },
      )

      q : Props
      q = (add_user_control sources.ioctl sources.alsa start).1.0

      route : SameRoute start (add_user_control sources.ioctl sources.alsa start).1
      route =
          add_user_control-Respects sources.ioctl sources.alsa SameRoute
            (SameRoute-IsAllowed sources.ioctl) start

      mux_same :
          (add_user_control sources.ioctl sources.alsa start).1.1.mux
          ≡ bind_output m b.output_count f s0 s1 s2
      mux_same = route.cache (ap (λ (n : Mux (Unit {0})). n.dirty) e ∙ h.clean) ∙ e
