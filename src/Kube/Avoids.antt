-- ===== src/Kube/Avoids.antt =====
-- Steps that send no request of some sort, one rule for each way to build a step.
use hcloud_csi_rwx.Prelude.{
  ℕ, suc, String, ◌≡◌, refl, Bool, true, false, Option, none, some, List, [], ◌∷◌, ◌∙◌,
  if◌then◌else◌,
}
use hcloud_csi_rwx.Kube.{Result, ok, err, Client, MergePatch}
use hcloud_csi_rwx.Kube.Session.{
  Session, Call, get, list, create, patch, delete, sleep, Try, pure, fail, or_fail, lift, attempt,
  map_err, wait, continue, ◌>>=◌, Handle, get_object, list_objects, create_object, patch_object,
  delete_object,
}

-- How many of the requests are of the sort `q`.
abbrev pub count : (Call → Bool) → List Call → ℕ
count q [] = 0
count q (c ∷ cs) = if q c then suc (count q cs) else count q cs

-- `m` sends no request of the sort `q`.
pub record Avoids {W E A : Type 0} (q : Call → Bool) (m : Try W E A) : Type 0 where
  pub at : (s : Session W) → count q (m s).1.calls ≡ count q s.calls

module _ {W E A : Type 0} {q : Call → Bool} where
  pub Avoids-pure : (a : A) → Avoids q (pure {W = W} {E = E} a)
  unfolding pure
  Avoids-pure a = record { at = λ s. refl }

  pub Avoids-fail : (e : E) → Avoids q (fail {W = W} {A = A} e)
  unfolding fail
  Avoids-fail e = record { at = λ s. refl }

  pub Avoids-lift : (r : Result E A) → Avoids q (lift {W = W} r)
  unfolding lift
  Avoids-lift r = record { at = λ s. refl }

  pub Avoids-or_fail : (o : Option A) (e : E) → Avoids q (or_fail {W = W} o e)
  unfolding or_fail
  Avoids-or_fail none e = Avoids-fail e
  Avoids-or_fail (some a) e = Avoids-pure a

  pub Avoids-attempt : {F : Type 0} (m : Try W E A) → Avoids q m → Avoids q (attempt {F = F} m)
  unfolding attempt
  Avoids-attempt m k = record { at = k.at }

  pub Avoids-map_err :
      {F : Type 0} (f : E → F) (m : Try W E A) → Avoids q m → Avoids q (map_err f m)
  unfolding map_err
  Avoids-map_err f m k = record { at = k.at }

  pub Avoids-if :
      (b : Bool) (m n : Try W E A) → Avoids q m → Avoids q n → Avoids q (if b then m else n)
  Avoids-if true m n km kn = km
  Avoids-if false m n km kn = kn

module _ {W E A B : Type 0} {q : Call → Bool} where
  Avoids-continue :
      (f : A → Try W E B)
      → ((a : A) → Avoids q (f a))
      → (r : Result E A) (s : Session W) → count q (continue r f s).1.calls ≡ count q s.calls
  Avoids-continue f kf (ok a) s = (kf a).at s
  Avoids-continue f kf (err e) s = refl

  pub Avoids-bind :
      (m : Try W E A) (f : A → Try W E B)
      → Avoids q m
      → ((a : A) → Avoids q (f a))
      → Avoids q (m >>= f)
  unfolding ◌>>=◌
  Avoids-bind m f km kf = record { at = λ s. Avoids-continue f kf (m s).0 (m s).1 ∙ km.at s }

module _ {W : Type 0} {q : Call → Bool} where
  pub Avoids-wait :
      {E : Type 0} (k : Client W) (n : ℕ) → q (sleep n) ≡ false → Avoids q (wait {E = E} k n)
  unfolding wait
  Avoids-wait k n e = record { at = λ s. rw e }

module _ {W K : Type 0} {q : Call → Bool} (h : Handle W K) where
  pub Avoids-get : (n : String) → q (get h.kind n) ≡ false → Avoids q (get_object h n)
  unfolding get_object
  Avoids-get n e = record { at = λ s. rw e }

  pub Avoids-list : (l : Option String) → q (list h.kind) ≡ false → Avoids q (list_objects h l)
  unfolding list_objects
  Avoids-list l e = record { at = λ s. rw e }

  pub Avoids-create :
      (o : K) → q (create h.kind (h.object o)) ≡ false → Avoids q (create_object h o)
  unfolding create_object
  Avoids-create o e = record { at = λ s. rw e }

  pub Avoids-patch :
      (n : String) (p : MergePatch) → q (patch h.kind n p) ≡ false → Avoids q (patch_object h n p)
  unfolding patch_object
  Avoids-patch n p e = record { at = λ s. rw e }

  pub Avoids-delete : (n : String) → q (delete h.kind n) ≡ false → Avoids q (delete_object h n)
  unfolding delete_object
  Avoids-delete n e = record { at = λ s. rw e }

pub ruleset avoids_rules = (
  Avoids-pure, Avoids-fail, Avoids-lift, Avoids-or_fail, Avoids-attempt, Avoids-map_err, Avoids-if,
  Avoids-bind, Avoids-wait, Avoids-get, Avoids-list, Avoids-create, Avoids-patch, Avoids-delete,
)
