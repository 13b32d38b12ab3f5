-- ===== src/Etcd/Table.antt =====
-- A concrete server and concrete encodings, which meet the assumptions: a list of entries, the newest
-- first. The theorems' examples run on it.
pub mod Codecs
pub mod Schemas
pub mod Staged
pub mod Imaged
use flow_pipe.Prelude.{
  ◌≡◌, ◌↔◌, refl, ap, sym, ◌∙◌, ◌⊎◌, inl, inr, Bool, true, false, ◌&&◌, Option, none, some, List,
  [], ◌∷◌, arith, if◌then◌else◌, Elem, Bool-cases,
}
use flow_pipe.Text.{Text, text_eq, text_eq_iff, text_eq→eq, text_eq_refl, has_prefix}
use flow_pipe.Etcd.{Etcd, Compare, passes, put_all}

abbrev pub Entries : Type 0
Entries = List (Text × Text)

unfoldable pub find : Entries → Text → Option Text
find [] j = none
find ((k, v) ∷ t) j = if text_eq k j then some v else find t j

unfoldable pub without : Text → Entries → Entries
without p [] = []
without p ((k, v) ∷ t) = let rest = without p t in if has_prefix p k then rest else (k, v) ∷ rest

unfoldable pub put_list : List (Text × Text) → Entries → Entries
put_list [] t = t
put_list ((k, v) ∷ puts) t = put_list puts ((k, v) ∷ t)

abbrev is_value : Option Text → Text → Bool
is_value none v = false
is_value (some u) v = text_eq u v

unfoldable pub select : Entries → Text → Entries → Entries
select all p [] = []
select all p ((k, v) ∷ t) =
    let rest = select all p t in
    if has_prefix p k && is_value (find all k) v then (k, v) ∷ rest else rest

pub find-put :
    (k v : Text) (t : Entries) (j : Text)
    → find ((k, v) ∷ t) j ≡ (if text_eq k j then some v else find t j)
unfolding find
find-put k v t j = refl

pub find-without :
    (p : Text) (t : Entries) (j : Text)
    → find (without p t) j ≡ (if has_prefix p j then none else find t j)
unfolding find without
find-without p [] j = ground arith
find-without p ((k, v) ∷ t) j = ground (arith, find-without p t j, text_eq_iff k j)

find-put_list :
    (puts : List (Text × Text)) (t : Entries) (j : Text)
    → find (put_list puts t) j ≡ put_all (find t) puts j
unfolding find put_list
find-put_list [] t j = refl
find-put_list ((k, v) ∷ puts) t j = find-put_list puts ((k, v) ∷ t) j

pub find-txn :
    (c : Compare) (puts : List (Text × Text)) (t : Entries) (j : Text)
    → find (if passes (find t) c then put_list puts t else t) j
      ≡ (if passes (find t) c then put_all (find t) puts j else find t j)
find-txn c puts t j = elim (Bool-cases (passes (find t) c)) [
  | inl yes_ ↦ rw yes_ (find-put_list puts t j)
  | inr no_ ↦ rw no_
]

-- A hit is an entry that has the prefix and is current.
abbrev pub Current : Entries → Text → Text → Text → Type 0
Current all p k v = (has_prefix p k ≡ true) × (find all k ≡ some v)

is_value-eq : (o : Option Text) (v : Text) → is_value o v ≡ true → o ≡ some v
is_value-eq none v h = cc
is_value-eq (some u) v h = ap some (text_eq→eq u v h)

pub Elem-select :
    (all : Entries) (p k v : Text) (t : Entries) → Elem (k, v) (select all p t) → Current all p k v
unfolding select
Elem-select all p k v [] h = elim h [ ]
Elem-select all p k v ((i, u) ∷ t) h =
    hit_case (has_prefix p i && is_value (find all i) u) refl (Elem-select all p k v t) h
  where
    hit_case :
        (b : Bool)
        → (has_prefix p i && is_value (find all i) u) ≡ b
        → (Elem (k, v) (select all p t) → Current all p k v)
        → Elem (k, v) (if b then (i, u) ∷ select all p t else select all p t)
        → Current all p k v
    hit_case false e rest h = rest h
    hit_case true e rest (inr h) = rest h
    hit_case true e rest (inl same) =
        let ki : k ≡ i = ap (λ x. x.0) same in
        let vu : v ≡ u = ap (λ x. x.1) same in
        rw (ki, vu) (ground arith, is_value-eq (find all i) u (ground arith))

pub select-Elem :
    (all : Entries) (p k v : Text) (t : Entries)
    → find t k ≡ some v
    → Current all p k v
    → Elem (k, v) (select all p t)
unfolding select find
select-Elem all p k v [] f c = cc
select-Elem all p k v ((i, u) ∷ t) f c =
    hit_case (text_eq i k) refl f (λ e. select-Elem all p k v t e c)
  where
    add :
        (b : Bool)
        → Elem (k, v) (select all p t)
        → Elem (k, v) (if b then (i, u) ∷ select all p t else select all p t)
    add true h = inr h
    add false h = h

    hit_case :
        (b : Bool)
        → text_eq i k ≡ b
        → (if b then some u else find t k) ≡ some v
        → (find t k ≡ some v → Elem (k, v) (select all p t))
        → Elem
            (k, v)
            (if has_prefix p i && is_value (find all i) u
              then (i, u) ∷ select all p t
              else select all p t)
    hit_case false e f rest = add (has_prefix p i && is_value (find all i) u) (rest f)
    hit_case true e f rest =
        let ik : i ≡ k = text_eq→eq i k e in
        let uv : u ≡ v = cc in rw (ik, uv, c.0, c.1, text_eq_refl v) (inl refl)

-- The table is an etcd server.
abbrev pub table : Etcd
table = record {
  Server = Entries;
  get = find;
  get_prefix = λ t p. select t p t;
  put = λ k v t. (k, v) ∷ t;
  delete_prefix = without;
  txn = λ c puts t. (passes (find t) c, if passes (find t) c then put_list puts t else t);
  get-put = find-put;
  get-delete_prefix = find-without;
  txn-passes = λ c puts s. refl;
  get-txn = find-txn;
  get_prefix-Elem = λ s p k v. (Elem-select s p k v s, λ c. select-Elem s p k v s c.1 c);
}
