-- ===== src/Tests/Clients.antt =====
-- A text format for maps of lists, in the place of JSON: each character and each piece carries a tag.
use Prim.Native.Char.{Char, code}
use Prim.Native.String as S
use hcloud_csi_rwx.Prelude.{
  String, ◌≡◌, refl, true, false, Option, none, some, List, [], ◌∷◌, ◌==◌, ap,
}
use hcloud_csi_rwx.Kube.{Result, ok, err}
use hcloud_csi_rwx.Recovery.Types.{Clients}

abbrev put_chars : String → String → String
put_chars S.[] rest = rest
put_chars (S.◌∷◌ c s) rest = S.◌∷◌ "c" (S.◌∷◌ c (put_chars s rest))

abbrev put_values : List String → String → String
put_values [] rest = rest
put_values (v ∷ vs) rest = S.◌∷◌ "v" (put_chars v (put_values vs rest))

abbrev put_entries : Clients → String
put_entries [] = "}"
put_entries ((k, vs) ∷ m) = S.◌∷◌ "k" (put_chars k (put_values vs (put_entries m)))

abbrev pub write_clients : Clients → String
write_clients m = S.◌∷◌ "{" (put_entries m)

-- What stands to the right of a place: characters, then values, then entries.
record Rest : Type 0 where
  chars : String
  values : List String
  entries : Clients

abbrev add_char : Char → Option Rest → Option Rest
add_char c none = none
add_char c (some r) = some (record r { chars = S.◌∷◌ c r.chars })

abbrev add_value : Option Rest → Option Rest
add_value none = none
add_value (some r) = some (record r { chars = ""; values = r.chars ∷ r.values })

abbrev add_entry : Option Rest → Option Rest
add_entry none = none
add_entry (some r) =
    some (record { chars = ""; values = []; entries = (r.chars, r.values) ∷ r.entries })

unfoldable read_rest : String → Option Rest
read_rest S.[] = none
read_rest (S.◌∷◌ c S.[]) = elim (code c == b'}') [
  | true ↦ some (record { chars = ""; values = []; entries = [] })
  | false ↦ none
]
read_rest (S.◌∷◌ c (S.◌∷◌ d t)) = elim (code c == b'c') [
  | true ↦ add_char d (read_rest t)
  | false ↦ elim (code c == b'v') [
    | true ↦ add_value (read_rest (S.◌∷◌ d t))
    | false ↦ elim (code c == b'k') [ true ↦ add_entry (read_rest (S.◌∷◌ d t)) | false ↦ none ]
  ]
]

abbrev read_entries : Option Rest → Result String Clients
read_entries none = err "expected a map"
read_entries (some r) = ok r.entries

unfoldable pub read_clients : String → Result String Clients
unfolding read_rest
read_clients S.[] = err "EOF while parsing a value"
read_clients (S.◌∷◌ c t) = read_entries (read_rest t)

abbrev rest_of : String → List String → Clients → Rest
rest_of s vs m = record { chars = s; values = vs; entries = m }

read_chars :
    (s rest : String) (vs : List String) (m : Clients)
    → read_rest rest ≡ some (rest_of "" vs m)
    → read_rest (put_chars s rest) ≡ some (rest_of s vs m)
unfolding read_rest
read_chars S.[] rest vs m h = h
read_chars (S.◌∷◌ c s) rest vs m h = rw (read_chars s rest vs m h)

abbrev IsFilled : String → Type 0
IsFilled S.[] = ⊥
IsFilled (S.◌∷◌ c t) = Unit {0}

-- A tag in front of a text that is not empty.
read_value :
    (t : String) (r : Option Rest)
    → read_rest t ≡ r
    → IsFilled t
    → read_rest (S.◌∷◌ "v" t) ≡ add_value r
unfolding read_rest
read_value S.[] r h n = absurd n
read_value (S.◌∷◌ c t) r h n = ap add_value h

read_entry :
    (t : String) (r : Option Rest)
    → read_rest t ≡ r
    → IsFilled t
    → read_rest (S.◌∷◌ "k" t) ≡ add_entry r
unfolding read_rest
read_entry S.[] r h n = absurd n
read_entry (S.◌∷◌ c t) r h n = ap add_entry h

put_chars-IsFilled : (s rest : String) → IsFilled rest → IsFilled (put_chars s rest)
put_chars-IsFilled S.[] rest h = h
put_chars-IsFilled (S.◌∷◌ c s) rest h = tt

put_values-IsFilled :
    (vs : List String) (rest : String) → IsFilled rest → IsFilled (put_values vs rest)
put_values-IsFilled [] rest h = h
put_values-IsFilled (v ∷ vs) rest h = tt

put_entries-IsFilled : (m : Clients) → IsFilled (put_entries m)
put_entries-IsFilled [] = tt
put_entries-IsFilled ((k, vs) ∷ m) = tt

read_values :
    (vs : List String) (rest : String) (m : Clients)
    → read_rest rest ≡ some (rest_of "" [] m)
    → IsFilled rest
    → read_rest (put_values vs rest) ≡ some (rest_of "" vs m)
read_values [] rest m h n = h
read_values (v ∷ vs) rest m h n =
    let later = put_values vs rest in
    read_value (put_chars v later) (some (rest_of v vs m))
      (read_chars v later vs m (read_values vs rest m h n))
      (put_chars-IsFilled v later (put_values-IsFilled vs rest n))

read-put_entries : (m : Clients) → read_rest (put_entries m) ≡ some (rest_of "" [] m)
unfolding read_rest
read-put_entries [] = refl
read-put_entries ((k, vs) ∷ m) =
    let later = put_values vs (put_entries m) in
    read_entry (put_chars k later) (some (rest_of k vs m))
      (read_chars k later vs m
        (read_values vs (put_entries m) m (read-put_entries m) (put_entries-IsFilled m)))
      (put_chars-IsFilled k later (put_values-IsFilled vs (put_entries m) (put_entries-IsFilled m)))

pub read-write_clients : (m : Clients) → read_clients (write_clients m) ≡ ok m
unfolding read_clients
read-write_clients m = rw (read-put_entries m)
