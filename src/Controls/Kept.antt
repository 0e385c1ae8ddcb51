-- ===== src/Controls/Kept.antt =====
-- server/input-controls.c: what the new controls leave as it was. Output has those of
-- server/output-controls.c, Optional and Router those of the mixer and the router, Global those of
-- server/global-controls.c.
pub mod Output
pub mod Optional
pub mod Router
pub mod Global
use Prim.Native.String.{String}
use text.Mathlib.Text.{◌==◌ as str_eq}
use mathlib.Core.Path.{subst}
use fcp_support.Base.{
  ℕ, List, [], ◌∷◌, Option, none, some, Res, ok, err, ◌≡◌, refl, sym, ap, ◌∙◌, length, Bool,
  Bool-cases, if_true, if_false, inl, inr, true, false,
}
use fcp_support.Control.{Props}
use fcp_support.Device.{Device}
use fcp_support.Device.Add.{add_control, add_user_control, find_control}
use fcp_support.Device.Change.{Handled, then_some}
use fcp_support.Device.Table.{IsRoomy, add_control-IsRoomy, add_control-find_control, insert_absent}
use fcp_support.Controls.{
  Sources, Built, built, refused, exits, add_built, for_each, or_skip, or_fail, get, number,
  count_of, counted,
}
use fcp_support.Controls.Inputs.{
  init_input_controls, create_input_controls, create_global_input_array_controls, create_input,
  create_configured, create_input_control, input_built,
}

-- Every control that could be found is still found, at its place and with its properties, and the table
-- still has room.
pub record IsKept {D : Type 0} (x y : Device D) : Type 0 where
  pub finds :
      (name : String) (c : ℕ × Props) → find_control x name ≡ some c → find_control y name ≡ some c
  pub roomy : IsRoomy x → IsRoomy y

-- What a handler returns, with whatever result, keeps the controls.
pub record Keeps {D : Type 0} (x : Device D) (h : Handled D) : Type 0 where
  pub keeps : (r : Res (Unit {0})) (y : Device D) → h ≡ some (r, y) → IsKept x y

module _ {D : Type 0} where
  pub same-IsKept : (x : Device D) → IsKept x x
  same-IsKept x = record { finds = λ name c e. e; roomy = λ h. h }

  pub IsKept-trans : (x y z : Device D) → IsKept x y → IsKept y z → IsKept x z
  IsKept-trans x y z h k = record {
    finds = λ name c e. k.finds name c (h.finds name c e);
    roomy = λ r. k.roomy (h.roomy r);
  }

  pub returned-IsKept :
      (x : Device D) (a b : Res (Unit {0}) × Device D)
      → IsKept x a.1
      → some a ≡ some b
      → IsKept x b.1
  returned-IsKept x a b k e = subst (λ c. IsKept x c.1) (injected e) k
    where
      injected : some a ≡ some b → a ≡ b
      injected h = cc h

  pub unchanged-Keeps : (x : Device D) (s : Res (Unit {0})) → Keeps x (some (s, x))
  unchanged-Keeps x s = record {
    keeps = λ r y e. returned-IsKept x (s, x) (r, y) (same-IsKept x) e;
  }

  pub then_some-Keeps :
      (x : Device D) (h : Handled D) (f : Device D → Handled D)
      → Keeps x h
      → ((z : Device D) → Keeps z (f z))
      → Keeps x (then_some h f)
  then_some-Keeps x none f first rest = record { keeps = λ r y e. absurd cc }
  then_some-Keeps x (some (err n, z)) f first rest = first
  then_some-Keeps x (some (ok u, z)) f first rest = record {
    keeps = λ r y e. IsKept-trans x z y (first.keeps (ok u) z refl) ((rest z).keeps r y e);
  }

  pub or_skip-Keeps :
      {A : Type 0} (o : Option A) (f : A → Device D → Handled D) (x : Device D)
      → ((a : A) → Keeps x (f a x))
      → Keeps x (or_skip o f x)
  or_skip-Keeps none f x h = unchanged-Keeps x (ok tt)
  or_skip-Keeps (some a) f x h = h a

  pub or_fail-Keeps :
      {A : Type 0} (o : Option A) (f : A → Device D → Handled D) (x : Device D)
      → ((a : A) → Keeps x (f a x))
      → Keeps x (or_fail o f x)
  or_fail-Keeps none f x h = unchanged-Keeps x (err 1)
  or_fail-Keeps (some a) f x h = h a

module _ {D : Type 0} (sources : Sources D) where
  abbrev J : Type 0
  J = sources.json.Json

  pub add_control-IsKept :
      (p : Props) (x : Device D) → IsKept x (add_control sources.ioctl sources.alsa p x)
  unfolding insert_absent
  add_control-IsKept p x = record {
    finds = λ name c e.
        add_control-find_control sources.ioctl sources.alsa p x name
        ∙ ap
            (insert_absent (str_eq p.name name)
              (length x.controls, (add_user_control sources.ioctl sources.alsa (p, x.backend)).1.0))
            e;
    roomy = add_control-IsRoomy sources.ioctl sources.alsa p x;
  }

  pub add_built-Keeps : (b : Built) (x : Device D) → Keeps x (add_built sources b x)
  unfolding add_built
  add_built-Keeps (built p) x = record {
    keeps = λ r y e. returned-IsKept x _ (r, y) (add_control-IsKept p x) e;
  }
  add_built-Keeps refused x = unchanged-Keeps x (err 1)
  add_built-Keeps exits x = record { keeps = λ r y e. absurd cc }

  pub for_each-Keeps :
      {A : Type 0} (f : A → Device D → Handled D)
      → ((a : A) (x : Device D) → Keeps x (f a x))
      → (items : List A) (x : Device D) → Keeps x (for_each sources f items x)
  unfolding for_each
  for_each-Keeps f h [] x = unchanged-Keeps x (ok tt)
  for_each-Keeps f h (a ∷ rest) x =
      then_some-Keeps x (f a x) (for_each sources f rest) (h a x) (for_each-Keeps f h rest)

  create_configured-Keeps :
      (members controls : J) (item : String × J) (x : Device D)
      → Keeps x (create_configured sources members controls item x)
  unfolding create_configured create_input_control
  create_configured-Keeps members controls (t, config) x =
      or_skip-Keeps (get sources controls t) _ x (λ control.
        or_skip-Keeps (get sources control "index") _ x (λ index.
          or_skip-Keeps (get sources control "member") _ x (λ member_name.
            or_skip-Keeps (get sources members (sources.json.get_string member_name)) _ x (λ member.
              add_built-Keeps (input_built sources (number sources (some index)) member config)
                x))))

  create_input_controls-Keeps :
      (inputs members config : J) (x : Device D)
      → Keeps x (create_input_controls sources inputs members config x)
  unfolding create_input_controls create_input
  create_input_controls-Keeps inputs members config x =
      for_each-Keeps _
        (λ i z.
          let input = sources.json.array_get_idx inputs i in
          or_skip-Keeps (get sources input "controls") _ z (λ controls.
            or_skip-Keeps (get sources input "name") _ z (λ name.
              for_each-Keeps (create_configured sources members controls)
                (create_configured-Keeps members controls) (sources.json.members config) z)))
        (counted (sources.json.array_length inputs) 0) x

  create_global_input_array_controls-Keeps :
      (members config : J) (x : Device D)
      → Keeps x (create_global_input_array_controls sources members config x)
  unfolding create_global_input_array_controls create_input_control
  create_global_input_array_controls-Keeps members config x =
      or_skip-Keeps (get sources members "inputMutes") _ x (λ member.
        or_skip-Keeps (get sources config "mute") _ x (λ c.
          or_skip-Keeps (get sources member "array-shape") _ x (λ shape.
            for_each-Keeps (λ i. create_input_control sources i member c)
              (λ i z. add_built-Keeps (input_built sources i member c) z)
              (counted (count_of sources (sources.json.array_get_idx shape 0)) 0) x)))

  pub init_input_controls-Keeps : (x : Device D) → Keeps x (init_input_controls sources x)
  unfolding init_input_controls
  init_input_controls-Keeps x =
      or_fail-Keeps (get sources sources.fam "input-controls") _ x (λ config.
        or_fail-Keeps (get sources sources.devmap "device-specification") _ x (λ spec.
          or_fail-Keeps (get sources spec "physical-inputs") _ x (λ inputs.
            or_fail-Keeps (get sources sources.devmap "structs") _ x (λ structs.
              or_fail-Keeps (get sources structs "APP_SPACE") _ x (λ app_space.
                or_fail-Keeps (get sources app_space "members") _ x (λ members.
                  then_some-Keeps x (create_input_controls sources inputs members config x)
                    (create_global_input_array_controls sources members config)
                    (create_input_controls-Keeps inputs members config x)
                    (create_global_input_array_controls-Keeps members config)))))))
