-- ===== src/Share/Config/Injection.antt =====
-- Values that are accepted cannot change the structure of ganesha's configuration.
use Prim.Native.Char.{Char, code}
use Prim.Native.String as S
use text.Mathlib.TextLemmas.{nil-append, cons-append}
use hcloud_csi_rwx.Prelude.{
  leb, ◌||◌, is_empty, List, [], ◌∷◌, format, ap, sym, ◌∙◌, ◌&&◌, ℕ, suc, String, ◌≡◌, refl, Bool,
  true, false, ◌+◌, arith, if◌then◌else◌, ◌==◌, inl, inr, Bool-cases,
}
use hcloud_csi_rwx.Kube.{ok}
use text.Mathlib.TextEquality.{Char-path}
use hcloud_csi_rwx.Share.Config.{
  open_clients, client_block_of, client_pieces, pieces, ExportConfig, render, is_config_char,
  every_char, validate_config_value,
}

-- How often a character stands in a text.
unfoldable pub occurrences : Char → String → ℕ
occurrences c S.[] = 0
occurrences c (S.◌∷◌ d s) = if code d == code c then suc (occurrences c s) else occurrences c s

occurrences-append :
    (c : Char) (s t : String) → occurrences c (S.◌++◌ s t) ≡ occurrences c s + occurrences c t
unfolding occurrences
occurrences-append c S.[] t = rw nil-append (omega arith)
occurrences-append c (S.◌∷◌ d s) t =
    rw (cons-append d s t) (ground (arith, occurrences-append c s t))

same_number : (m n : ℕ) → (m == n) ≡ true → m ≡ n
same_number m n h = ground (arith, h)

and_parts : (a b : Bool) → (a && b) ≡ true → (a ≡ true) × (b ≡ true)
and_parts true b h = (refl, h)
and_parts false b h = cc h

every_char-occurrences :
    (c : Char) (s : String)
    → is_config_char c ≡ false
    → every_char is_config_char s ≡ true
    → occurrences c s ≡ 0
unfolding occurrences
every_char-occurrences c S.[] barred all = refl
every_char-occurrences c (S.◌∷◌ d s) barred all =
    let parts = and_parts (is_config_char d) (every_char is_config_char s) all in
    elim (Bool-cases (code d == code c)) [
      | inl e ↦
          let same : d ≡ c = Char-path d c (same_number (code d) (code c) e) in
          cc (ap is_config_char same, parts.0, barred)
      | inr e ↦ rw e (every_char-occurrences c s barred parts.1)
    ]

-- Lists of texts with the same occurrences, one by one.
abbrev SamePieces : Char → List String → List String → Type 0
SamePieces c [] [] = Unit {0}
SamePieces c [] (t ∷ ts) = ⊥
SamePieces c (s ∷ ss) [] = ⊥
SamePieces c (s ∷ ss) (t ∷ ts) = (occurrences c s ≡ occurrences c t) × SamePieces c ss ts

format-SamePieces :
    (c : Char) (ss ts : List String)
    → SamePieces c ss ts
    → occurrences c (format ss) ≡ occurrences c (format ts)
format-SamePieces c [] [] h = refl
format-SamePieces c [] (t ∷ ts) h = absurd h
format-SamePieces c (s ∷ ss) [] h = absurd h
format-SamePieces c (s ∷ ss) (t ∷ ts) h =
    rw
      (
        occurrences-append c s (format ss),
        occurrences-append c t (format ts),
        h.0,
        format-SamePieces c ss ts h.1,
      )
      refl

-- The three texts are accepted.
abbrev pub AreAccepted : String → String → String → Type 0
AreAccepted path pseudo clients =
    (validate_config_value path ≡ ok tt)
    × (validate_config_value pseudo ≡ ok tt)
    × (validate_config_value clients ≡ ok tt)

accepted_chars :
    (value : String) → validate_config_value value ≡ ok tt → every_char is_config_char value ≡ true
unfolding validate_config_value
accepted_chars value h = elim (Bool-cases (every_char is_config_char value)) [
  | inl e ↦ e
  | inr e ↦ elim (Bool-cases (is_empty value)) [
    | inl f ↦ cc (rw f at h)
    | inr f ↦ cc (rw (f, e) at h)
  ]
]

value_same :
    (c : Char) (s t : String)
    → is_config_char c ≡ false
    → validate_config_value s ≡ ok tt
    → validate_config_value t ≡ ok tt
    → occurrences c s ≡ occurrences c t
value_same c s t barred hs ht =
    every_char-occurrences c s barred (accepted_chars s hs)
    ∙ sym (every_char-occurrences c t barred (accepted_chars t ht))

client_block_same :
    (c : Char) (cfg : ExportConfig) (clients : String) (is_open : Bool)
    → occurrences c clients ≡ occurrences c cfg.allowed_clients
    → occurrences c (client_block_of is_open clients)
      ≡ occurrences c (client_block_of is_open cfg.allowed_clients)
client_block_same c cfg clients true h = refl
client_block_same c cfg clients false h =
    format-SamePieces c (client_pieces clients) (client_pieces cfg.allowed_clients)
      (refl, (h, (refl, tt)))

barred_same :
    (c : Char) (cfg : ExportConfig) (path pseudo clients : String)
    → is_config_char c ≡ false
    → AreAccepted cfg.export_path cfg.pseudo_path cfg.allowed_clients
    → AreAccepted path pseudo clients
    → open_clients clients ≡ open_clients cfg.allowed_clients
    → occurrences c (
        render (record cfg { export_path = path; pseudo_path = pseudo; allowed_clients = clients }))
      ≡ occurrences c (render cfg)
unfolding render
barred_same c cfg path pseudo clients barred old new same =
    let blocks =
      client_block_same c cfg clients (open_clients cfg.allowed_clients)
        (value_same c clients cfg.allowed_clients barred new.2 old.2) in
    format-SamePieces c
      (pieces (record cfg { export_path = path; pseudo_path = pseudo; allowed_clients = clients }))
      (pieces cfg)
      (
        refl,
        (
          refl,
          (
            refl,
            (
              refl,
              (
                refl,
                (
                  refl,
                  (
                    refl,
                    (
                      refl,
                      (
                        refl,
                        (
                          refl,
                          (
                            refl,
                            (
                              refl,
                              (
                                value_same c path cfg.export_path barred new.0 old.0,
                                (
                                  refl,
                                  (
                                    value_same c pseudo cfg.pseudo_path barred new.1 old.1,
                                    (
                                      refl,
                                      (
                                        rw same refl,
                                        (refl, (refl, (refl, (rw same blocks, (refl, tt))))),
                                      ),
                                    ),
                                  ),
                                ),
                              ),
                            ),
                          ),
                        ),
                      ),
                    ),
                  ),
                ),
              ),
            ),
          ),
        ),
      )

-- The characters that give ganesha's configuration its structure: braces, semicolons, quotes, `=`,
-- the `#` of a comment, the `%` of an include, the backslash of an escape, and the characters up to
-- the last control character before the space, among them the line breaks.
unfoldable pub is_structural : Char → Bool
is_structural c =
    code c == b'{'
    || code c == b'}'
    || code c == b';'
    || code c == b'='
    || code c == b'#'
    || code c == b'%'
    || code c == 34
    || code c == 39
    || code c == 92
    || leb (code c) 31

structural_barred : (c : Char) → is_structural c ≡ true → is_config_char c ≡ false
unfolding is_structural is_config_char
structural_barred c h = ground (arith, h)

-- Texts that are accepted leave the structure of the configuration alone: a brace, a semicolon, a
-- quote, a backslash, one of `=`, `#` and `%`, a line break or another control character below the
-- space stands in the rendered text as often as with any other accepted texts that open the export to
-- all clients, or not, alike.
pub render-occurrences :
    (c : Char) (cfg : ExportConfig) (path pseudo clients : String)
    → is_structural c ≡ true
    → AreAccepted cfg.export_path cfg.pseudo_path cfg.allowed_clients
    → AreAccepted path pseudo clients
    → open_clients clients ≡ open_clients cfg.allowed_clients
    → occurrences c (
        render (record cfg { export_path = path; pseudo_path = pseudo; allowed_clients = clients }))
      ≡ occurrences c (render cfg)
render-occurrences c cfg path pseudo clients structural old new same =
    barred_same c cfg path pseudo clients (structural_barred c structural) old new same
