-- ===== src/Csi/Service/Implemented.antt =====
-- Steps that never answer `unimplemented`, one rule for each way to build a step.
use hcloud_csi_rwx.Prelude.{refl, ℕ, ◌≡◌, Bool, true, false, if◌then◌else◌}
use hcloud_csi_rwx.Kube.{Result, ok, err, Client}
use hcloud_csi_rwx.Kube.Session.{
  Session, Try, pure, fail, lift, recode, attempt, map_err, wait, continue, ◌>>=◌,
}
use hcloud_csi_rwx.Csi.Types.{
  Status, internal, deadline_exceeded, unavailable, invalid_argument, unimplemented,
}

abbrev pub refuses : Status → Bool
refuses (unimplemented t) = true
refuses (internal t) = false
refuses (deadline_exceeded t) = false
refuses (unavailable t) = false
refuses (invalid_argument t) = false

abbrev pub answers_refusal : {A : Type 0} → Result Status A → Bool
answers_refusal (ok a) = false
answers_refusal (err e) = refuses e

-- `m` never answers `unimplemented`.
pub record Implemented {W A : Type 0} (m : Try W Status A) : Type 0 where
  pub at : (s : Session W) → answers_refusal (m s).0 ≡ false

recode-Implemented :
    {E A : Type 0} (f : E → Status) (r : Result E A)
    → ((e : E) → refuses (f e) ≡ false)
    → answers_refusal (recode f r) ≡ false
recode-Implemented f (ok a) h = refl
recode-Implemented f (err e) h = h e

module _ {W A : Type 0} where
  pub Implemented-pure : (a : A) → Implemented (pure {W = W} a)
  unfolding pure
  Implemented-pure a = record { at = λ s. refl }

  pub Implemented-fail : (e : Status) → refuses e ≡ false → Implemented (fail {W = W} {A = A} e)
  unfolding fail
  Implemented-fail e h = record { at = λ s. h }

  pub Implemented-lift :
      {E : Type 0} (f : E → Status) (r : Result E A)
      → ((e : E) → refuses (f e) ≡ false)
      → Implemented (lift {W = W} (recode f r))
  unfolding lift
  Implemented-lift f r h = record { at = λ s. recode-Implemented f r h }

  pub Implemented-map_err :
      {E : Type 0} (f : E → Status) (m : Try W E A)
      → ((e : E) → refuses (f e) ≡ false)
      → Implemented (map_err f m)
  unfolding map_err
  Implemented-map_err f m h = record { at = λ s. recode-Implemented f (m s).0 h }

  pub Implemented-attempt : {E : Type 0} (m : Try W E A) → Implemented (attempt {F = Status} m)
  unfolding attempt
  Implemented-attempt m = record { at = λ s. refl }

  pub Implemented-if :
      (b : Bool) (m n : Try W Status A)
      → Implemented m
      → Implemented n
      → Implemented (if b then m else n)
  Implemented-if true m n km kn = km
  Implemented-if false m n km kn = kn

module _ {W A B : Type 0} where
  pub Implemented-continue :
      (f : A → Try W Status B)
      → ((a : A) → Implemented (f a))
      → (r : Result Status A) (s : Session W) → answers_refusal r ≡ false
      → answers_refusal (continue r f s).0 ≡ false
  Implemented-continue f kf (ok a) s h = (kf a).at s
  Implemented-continue f kf (err e) s h = h

  pub Implemented-bind :
      (m : Try W Status A) (f : A → Try W Status B)
      → Implemented m
      → ((a : A) → Implemented (f a))
      → Implemented (m >>= f)
  unfolding ◌>>=◌
  Implemented-bind m f km kf = record {
    at = λ s. Implemented-continue f kf (m s).0 (m s).1 (km.at s);
  }

-- A step that matches on an answer.
pub Implemented-elim :
    {W E A B : Type 0} (r : Result E A) (f : A → Try W Status B) (g : E → Try W Status B)
    → ((a : A) → Implemented (f a))
    → ((e : E) → Implemented (g e))
    → Implemented (elim r as (λ _. Try W Status B) [ ok a ↦ f a | err e ↦ g e ])
Implemented-elim (ok a) f g kf kg = kf a
Implemented-elim (err e) f g kf kg = kg e

module _ {W : Type 0} where
  pub Implemented-wait : (k : Client W) (n : ℕ) → Implemented (wait k n)
  unfolding wait
  Implemented-wait k n = record { at = λ s. refl }
