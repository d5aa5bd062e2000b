-- ===== src/Rtc/Session/Toy.antt =====
-- Codecs for tests: numbers are written as they are, lists with their length in front, and a case
-- with its number in front.
use magic_share.Base.{
  ℕ, zero, suc, ◌≡◌, refl, sym, ap, ◌∙◌, ◌⊎◌, inl, inr, Option, some, none, List, [], ◌∷◌, ◌++◌,
  append_assoc, append-nil, length,
}
use magic_share.Rtc.{Bytes}
use magic_share.Rtc.Io.{Codec, Text, FileDto, FileMetadata}

pub record Prefix (A : Type 0) : Type 0 where
  pub write : A → Bytes
  pub read : Bytes → Option (A × Bytes)
  pub read-write : (a : A) (rest : Bytes) → read (write a ++ rest) ≡ some (a, rest)

abbrev pub next :
    {A B : Type 0} → Option (A × Bytes) → (A → Bytes → Option (B × Bytes)) → Option (B × Bytes)
next none k = none
next (some (a, rest)) k = k a rest

abbrev pub read_number : Bytes → Option (ℕ × Bytes)
read_number [] = none
read_number (n ∷ rest) = some (n, rest)

abbrev pub number : Prefix ℕ
number = record { write = λ n. n ∷ []; read = read_number; read-write = λ n rest. refl }

abbrev pub nothing : Prefix (Unit {0})
nothing = record { write = λ u. []; read = λ b. some (tt, b); read-write = λ u rest. refl }

module _ {A B : Type 0} (p : Prefix A) where
  abbrev pub read_pair : Prefix B → Bytes → Option ((A × B) × Bytes)
  read_pair q b = next (p.read b) λ x r. next (q.read r) λ y r'. some ((x, y), r')

  pub pair-law :
      (q : Prefix B) (v : A × B) (rest : Bytes)
      → read_pair q ((p.write v.0 ++ q.write v.1) ++ rest) ≡ some (v, rest)
  pair-law q (a, b) rest =
      rw
        (
          append_assoc (p.write a) (q.write b) rest,
          p.read-write a (q.write b ++ rest),
          q.read-write b rest,
        )
        refl

  abbrev pub pair : Prefix B → Prefix (A × B)
  pair q = record {
    write = λ v. p.write v.0 ++ q.write v.1;
    read = read_pair q;
    read-write = pair-law q;
  }

  abbrev pub read_case : Prefix B → Bytes → Option ((A ⊎ B) × Bytes)
  read_case q [] = none
  read_case q (zero ∷ b) = next (p.read b) λ x r. some (inl x, r)
  read_case q (suc n ∷ b) = next (q.read b) λ y r. some (inr y, r)

  abbrev pub write_case : Prefix B → A ⊎ B → Bytes
  write_case q (inl a) = 0 ∷ p.write a
  write_case q (inr b) = 1 ∷ q.write b

  pub case-law :
      (q : Prefix B) (v : A ⊎ B) (rest : Bytes)
      → read_case q (write_case q v ++ rest) ≡ some (v, rest)
  case-law q (inl a) rest = rw (p.read-write a rest) refl
  case-law q (inr b) rest = rw (q.read-write b rest) refl

  abbrev pub case : Prefix B → Prefix (A ⊎ B)
  case q = record { write = write_case q; read = read_case q; read-write = case-law q }

  pub iso-law :
      (to : A → B) (from : B → A)
      → ((b : B) → to (from b) ≡ b)
      → (b : B) (rest : Bytes)
      → next (p.read (p.write (from b) ++ rest)) (λ a r. some (to a, r)) ≡ some (b, rest)
  iso-law to from h b rest = rw (p.read-write (from b) rest, h b) refl

  abbrev pub iso : (to : A → B) (from : B → A) → ((b : B) → to (from b) ≡ b) → Prefix B
  iso to from h = record {
    write = λ b. p.write (from b);
    read = λ bytes. next (p.read bytes) λ a r. some (to a, r);
    read-write = iso-law to from h;
  }

module _ {A : Type 0} (p : Prefix A) where
  abbrev pub write_all : List A → Bytes
  write_all [] = []
  write_all (a ∷ l) = p.write a ++ write_all l

  abbrev pub read_all : ℕ → Bytes → Option (List A × Bytes)
  read_all zero b = some ([], b)
  read_all (suc n) b = next (p.read b) λ a r. next (read_all n r) λ l r'. some (a ∷ l, r')

  pub all-law :
      (l : List A) (rest : Bytes) → read_all (length l) (write_all l ++ rest) ≡ some (l, rest)
  all-law [] rest = refl
  all-law (a ∷ l) rest =
      rw
        (
          append_assoc (p.write a) (write_all l) rest,
          p.read-write a (write_all l ++ rest),
          all-law l rest,
        )
        refl

  abbrev pub list : Prefix (List A)
  list = record {
    write = λ l. length l ∷ write_all l;
    read = λ bytes. next (read_number bytes) read_all;
    read-write = all-law;
  }

  abbrev pub first : Option (A × Bytes) → Option A
  first none = none
  first (some (a, rest)) = some a

  pub whole-law : (a : A) → first (p.read (p.write a)) ≡ some a
  whole-law a =
      let e : p.read (p.write a) ≡ some (a, []) =
        ap p.read (sym (append-nil (p.write a))) ∙ p.read-write a [] in
      rw e refl

  abbrev pub codec : Codec A
  codec = record { encode = p.write; decode = λ b. first (p.read b); decode-encode = whole-law }

abbrev pub chars : Prefix Text
chars = list number

module _ {A : Type 0} (p : Prefix A) where
  abbrev pub to_option : Unit {0} ⊎ A → Option A
  to_option (inl u) = none
  to_option (inr a) = some a

  abbrev pub from_option : Option A → Unit {0} ⊎ A
  from_option none = inl tt
  from_option (some a) = inr a

  pub option-law : (o : Option A) → to_option (from_option o) ≡ o
  option-law none = refl
  option-law (some a) = refl

  abbrev pub optional : Prefix (Option A)
  optional = iso (case nothing p) to_option from_option option-law

abbrev pub file_metadata : Prefix FileMetadata
file_metadata =
    iso (pair (optional chars) (optional chars)) (λ v. record { modified = v.0; accessed = v.1 })
      (λ m. (m.modified, m.accessed)) (λ m. refl)

abbrev pub file_dto : Prefix FileDto
file_dto =
    iso
      (pair (pair chars chars) (
        pair (pair number chars)
          (pair (pair (optional chars) (optional chars)) (optional file_metadata))))
      (λ v. record {
        id = v.0.0;
        file_name = v.0.1;
        size = v.1.0.0;
        file_type = v.1.0.1;
        sha256 = v.1.1.0.0;
        preview = v.1.1.0.1;
        metadata = v.1.1.1;
      })
      (λ f. ((f.id, f.file_name), ((f.size, f.file_type), ((f.sha256, f.preview), f.metadata))))
      (λ f. refl)
