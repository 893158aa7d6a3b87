-- ===== src/Kube/Keeps.antt =====
-- Steps that keep a property of the world, one rule for each way to build a step, and what an API
-- does to the ConfigMaps that the world holds.
use hcloud_csi_rwx.Prelude.{String, ◌≡◌, refl, Bool, true, false, Option, none, some, if◌then◌else◌}
use hcloud_csi_rwx.Kube.{Result, ok, err, Api}
use hcloud_csi_rwx.Kube.Session.{
  Session, Try, pure, fail, or_fail, lift, attempt, map_err, continue, ◌>>=◌, Handle, get_object,
  list_objects, create_object, delete_object, recode,
}

-- Where `I` holds of the world before `m`, it holds of the world after it.
pub record Keeps {W E A : Type 0} (I : W → Type 0) (m : Try W E A) : Type 0 where
  pub at : (s : Session W) → I s.world → I (m s).1.world

-- Where `I` holds of the world before `m`, an answer of `m` satisfies `Q`.
pub record Gives {W E A : Type 0} (I : W → Type 0) (Q : A → Type 0) (m : Try W E A) : Type 0 where
  pub at : (s : Session W) (a : A) → I s.world → (m s).0 ≡ ok a → Q a

-- No request of the API changes `I`.
pub record Quiet {W K : Type 0} (I : W → Type 0) (a : Api W K) : Type 0 where
  pub get : (n : String) (w : W) → I w → I (a.get n w).1
  pub list : (l : Option String) (w : W) → I w → I (a.list l w).1
  pub create : (k : K) (w : W) → I w → I (a.create k w).1
  pub delete : (n : String) (w : W) → I w → I (a.delete n w).1

recode_ok : {E F A : Type 0} (f : E → F) (r : Result E A) (a : A) → recode f r ≡ ok a → r ≡ ok a
recode_ok f (ok b) a h = cc h
recode_ok f (err e) a h = cc h

module _ {W E A : Type 0} {I : W → Type 0} where
  pub Keeps-pure : (a : A) → Keeps I (pure {W = W} {E = E} a)
  unfolding pure
  Keeps-pure a = record { at = λ s i. i }

  pub Keeps-fail : (e : E) → Keeps I (fail {W = W} {A = A} e)
  unfolding fail
  Keeps-fail e = record { at = λ s i. i }

  pub Keeps-lift : (r : Result E A) → Keeps I (lift {W = W} r)
  unfolding lift
  Keeps-lift r = record { at = λ s i. i }

  pub Keeps-or_fail : (o : Option A) (e : E) → Keeps I (or_fail {W = W} o e)
  unfolding or_fail
  Keeps-or_fail none e = Keeps-fail e
  Keeps-or_fail (some a) e = Keeps-pure a

  pub Keeps-attempt : {F : Type 0} (m : Try W E A) → Keeps I m → Keeps I (attempt {F = F} m)
  unfolding attempt
  Keeps-attempt m k = record { at = k.at }

  pub Keeps-map_err : {F : Type 0} (f : E → F) (m : Try W E A) → Keeps I m → Keeps I (map_err f m)
  unfolding map_err
  Keeps-map_err f m k = record { at = k.at }

  pub Keeps-if : (b : Bool) (m n : Try W E A) → Keeps I m → Keeps I n → Keeps I (if b then m else n)
  Keeps-if true m n km kn = km
  Keeps-if false m n km kn = kn

  pub Gives-map_err :
      {F : Type 0} {Q : A → Type 0} (f : E → F) (m : Try W E A)
      → Gives I Q m
      → Gives I Q (map_err f m)
  unfolding map_err
  Gives-map_err f m g = record { at = λ s a i h. g.at s a i (recode_ok f (m s).0 a h) }

  pub Gives-pure : {Q : A → Type 0} (a : A) → Q a → Gives I Q (pure {W = W} {E = E} a)
  unfolding pure
  Gives-pure {Q} a q = record { at = λ s b i h. let same : a ≡ b = cc h in rw (← same) q }

  pub Gives-fail : {Q : A → Type 0} (e : E) → Gives I Q (fail {W = W} {A = A} e)
  unfolding fail
  Gives-fail e = record { at = λ s b i h. cc h }

  pub Gives-if :
      {Q : A → Type 0} (b : Bool) (m n : Try W E A)
      → Gives I Q m
      → Gives I Q n
      → Gives I Q (if b then m else n)
  Gives-if true m n gm gn = gm
  Gives-if false m n gm gn = gn

module _ {W E A B : Type 0} {I : W → Type 0} where
  Keeps-continue :
      (f : A → Try W E B) (Q : A → Type 0)
      → ((a : A) → Q a → Keeps I (f a))
      → (r : Result E A) (s : Session W) → ((a : A) → r ≡ ok a → Q a)
      → I s.world
      → I (continue r f s).1.world
  Keeps-continue f Q kf (ok a) s q i = (kf a (q a refl)).at s i
  Keeps-continue f Q kf (err e) s q i = i

  -- The rest of the steps may rely on what the answer satisfies.
  pub Keeps-given :
      (Q : A → Type 0) (m : Try W E A) (f : A → Try W E B)
      → Keeps I m
      → Gives I Q m
      → ((a : A) → Q a → Keeps I (f a))
      → Keeps I (m >>= f)
  unfolding ◌>>=◌
  Keeps-given Q m f km gm kf = record {
    at = λ s i. Keeps-continue f Q kf (m s).0 (m s).1 (λ a h. gm.at s a i h) (km.at s i);
  }

  Gives-continue :
      (f : A → Try W E B) (P : A → Type 0) (Q : B → Type 0)
      → ((a : A) → P a → Gives I Q (f a))
      → (r : Result E A) (s : Session W) → ((a : A) → r ≡ ok a → P a)
      → I s.world
      → (b : B) → (continue r f s).0 ≡ ok b
      → Q b
  Gives-continue f P Q gf (ok a) s p i b h = (gf a (p a refl)).at s b i h
  Gives-continue f P Q gf (err e) s p i b h = cc h

  pub Gives-bind :
      (P : A → Type 0) (Q : B → Type 0) (m : Try W E A) (f : A → Try W E B)
      → Keeps I m
      → Gives I P m
      → ((a : A) → P a → Gives I Q (f a))
      → Gives I Q (m >>= f)
  unfolding ◌>>=◌
  Gives-bind P Q m f km gm gf = record {
    at = λ s b i h. Gives-continue f P Q gf (m s).0 (m s).1 (λ a e. gm.at s a i e) (km.at s i) b h;
  }

  pub Keeps-bind :
      (m : Try W E A) (f : A → Try W E B)
      → Keeps I m
      → ((a : A) → Keeps I (f a))
      → Keeps I (m >>= f)
  Keeps-bind m f km kf =
      Keeps-given (λ _. Unit {0}) m f km (record { at = λ s a i h. tt }) (λ a _. kf a)

module _ {W K : Type 0} {I : W → Type 0} (h : Handle W K) (q : Quiet I h.api) where
  pub Keeps-get : (n : String) → Keeps I (get_object h n)
  unfolding get_object
  Keeps-get n = record { at = λ s i. q.get n s.world i }

  pub Keeps-list : (l : Option String) → Keeps I (list_objects h l)
  unfolding list_objects
  Keeps-list l = record { at = λ s i. q.list l s.world i }

  pub Keeps-create : (o : K) → Keeps I (create_object h o)
  unfolding create_object
  Keeps-create o = record { at = λ s i. q.create o s.world i }

  pub Keeps-delete : (n : String) → Keeps I (delete_object h n)
  unfolding delete_object
  Keeps-delete n = record { at = λ s i. q.delete n s.world i }

pub ruleset keeps_rules = (
  Keeps-pure, Keeps-fail, Keeps-lift, Keeps-or_fail, Keeps-attempt, Keeps-map_err, Keeps-if,
  Keeps-bind, Keeps-get, Keeps-list, Keeps-create, Keeps-delete,
)
