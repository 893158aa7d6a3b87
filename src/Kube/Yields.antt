-- ===== src/Kube/Yields.antt =====
-- Steps that succeed in the worlds of an invariant, and stay there, one rule for each way to build a step.
use hcloud_csi_rwx.Prelude.{◌≡◌, refl}
use hcloud_csi_rwx.Kube.{Result, ok}
use hcloud_csi_rwx.Kube.Session.{Session, Try, pure, attempt, map_err, ◌>>=◌}

-- From a world of `I`, `m` succeeds with a value of `Q`, in a world of `I`.
pub record Yields {W E A : Type 0} (I : W → Type 0) (Q : A → Type 0) (m : Try W E A) : Type 0 where
  pub at : (s : Session W) → I s.world → (a : A) × ((m s).0 ≡ ok a) × Q a × I (m s).1.world

-- From a world of `I`, `m` ends as `P` says.
pub record Ends {W E A : Type 0} (I : W → Type 0) (P : Result E A × Session W → Type 0)
    (m : Try W E A) : Type 0 where
  pub at : (s : Session W) → I s.world → P (m s)

module _ {W : Type 0} {I : W → Type 0} where
  pub Yields-bind :
      {E A B : Type 0} {Q : A → Type 0} {R : B → Type 0} (m : Try W E A) (f : A → Try W E B)
      → Yields I Q m
      → ((a : A) → Q a → Yields I R (f a))
      → Yields I R (m >>= f)
  unfolding ◌>>=◌
  Yields-bind m f km kf = record {
    at = λ s i. let (a, e, q, j) = km.at s i in rw e ((kf a q).at (m s).1 j);
  }

  pub Ends-bind :
      {E A B : Type 0} {Q : A → Type 0} {P : Result E B × Session W → Type 0} (m : Try W E A)
      (f : A → Try W E B)
      → Yields I Q m
      → ((a : A) → Q a → Ends I P (f a))
      → Ends I P (m >>= f)
  unfolding ◌>>=◌
  Ends-bind m f km kf = record {
    at = λ s i. let (a, e, q, j) = km.at s i in rw e ((kf a q).at (m s).1 j);
  }

  pub Yields-map_err :
      {E F A : Type 0} {Q : A → Type 0} (g : E → F) (m : Try W E A)
      → Yields I Q m
      → Yields I Q (map_err g m)
  unfolding map_err
  Yields-map_err g m km = record {
    at = λ s i. let (a, e, q, j) = km.at s i in (a, rw e refl, q, j);
  }

  pub Yields-attempt :
      {E F A : Type 0} {Q : A → Type 0} (m : Try W E A)
      → Yields I Q m
      → Yields I (λ r. (a : A) × (r ≡ ok a) × Q a) (attempt {F = F} m)
  unfolding attempt
  Yields-attempt m km = record {
    at = λ s i. let (a, e, q, j) = km.at s i in ((m s).0, refl, (a, e, q), j);
  }

  pub Yields-pure :
      {E A : Type 0} {Q : A → Type 0} (a : A) → Q a → Yields I Q (pure {W = W} {E = E} a)
  unfolding pure
  Yields-pure a q = record { at = λ s i. (a, refl, q, i) }
