-- ===== src/Etcd.antt =====
-- The etcd server and the encodings, which the stores use and do not implement: interfaces with the
-- documented behaviour that the stores rely on. go.etcd.io/etcd/client/v3: Get, Put, Delete with a
-- prefix, and a transaction of one comparison. google.golang.org/protobuf and encoding/json: an
-- encoding decodes to what was encoded; of encoding/json this is said of strings in UTF-8, as the
-- messages hold them.
pub mod Table
use flow_pipe.Prelude.{
  ℕ, ◌≡◌, ◌↔◌, Bool, true, false, Option, none, some, List, [], ◌∷◌, if◌then◌else◌, Elem,
}
use flow_pipe.Text.{Text, text_eq, has_prefix}

-- clientv3.Compare(CreateRevision(k), "=", 0): the key is absent.
-- clientv3.Compare(Value(k), "=", v): the key is there with that value.
pub data Compare : Type 0 where
  is_absent : Text → Compare
  has_value : Text → Text → Compare

abbrev value_is : Option Text → Text → Bool
value_is none v = false
value_is (some u) v = text_eq u v

abbrev is_none : Option Text → Bool
is_none none = true
is_none (some u) = false

abbrev pub passes : (Text → Option Text) → Compare → Bool
passes contents (is_absent k) = is_none (contents k)
passes contents (has_value k v) = value_is (contents k) v

-- The puts of a transaction, in order.
abbrev pub put_all : (Text → Option Text) → List (Text × Text) → Text → Option Text
put_all contents [] j = contents j
put_all contents ((k, v) ∷ puts) j =
    put_all (λ i. if text_eq k i then some v else contents i) puts j

pub record Etcd : Type 1 where
  pub Server : Type 0
  pub get : Server → Text → Option Text
  pub get_prefix : Server → Text → List (Text × Text)
  pub put : Text → Text → Server → Server
  pub delete_prefix : Text → Server → Server
  pub txn : Compare → List (Text × Text) → Server → Bool × Server
  pub get-put :
      (k v : Text) (s : Server) (j : Text)
      → get (put k v s) j ≡ (if text_eq k j then some v else get s j)
  pub get-delete_prefix :
      (p : Text) (s : Server) (j : Text)
      → get (delete_prefix p s) j ≡ (if has_prefix p j then none else get s j)
  pub txn-passes :
      (c : Compare) (puts : List (Text × Text)) (s : Server) → (txn c puts s).0 ≡ passes (get s) c
  pub get-txn :
      (c : Compare) (puts : List (Text × Text)) (s : Server) (j : Text)
      → get (txn c puts s).1 j ≡ (if passes (get s) c then put_all (get s) puts j else get s j)
  pub get_prefix-Elem :
      (s : Server) (p k v : Text)
      → Elem (k, v) (get_prefix s p) ↔ ((has_prefix p k ≡ true) × (get s k ≡ some v))

-- Marshal may fail; what it returns, Unmarshal reads back.
pub record Codec (A : Type 0) : Type 0 where
  pub marshal : A → Option Text
  pub unmarshal : Text → Option A
  pub unmarshal-marshal : (a : A) (b : Text) → marshal a ≡ some b → unmarshal b ≡ some a
