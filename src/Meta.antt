-- ===== src/Meta.antt =====
-- The parts of the Kubernetes object metadata that the operator reads or writes. The types
-- themselves are those of k8s.io/apimachinery; a field that no line of the operator names is left
-- out. Times are nanoseconds, and a map or slice that may be nil is an `Option`.
use account_operator.Base.{ℕ, String, Option, none, List, []}
use account_operator.Base.Dict.{Dict}

pub record TypeMeta : Type 0 where
  pub kind : String
  pub api_version : String

pub record OwnerReference : Type 0 where
  pub kind : String
  pub name : String

pub record ObjectMeta : Type 0 where
  pub name : String
  pub namespace : String
  pub labels : Option (Dict String)
  pub creation_timestamp : ℕ
  pub deletion_timestamp : Option ℕ
  pub owner_references : List OwnerReference

-- `metav1.ObjectMeta{Name: name}`
abbrev pub named : String → ObjectMeta
named n = record {
  name = n;
  namespace = "";
  labels = none;
  creation_timestamp = 0;
  deletion_timestamp = none;
  owner_references = [];
}

-- `metav1.Condition`
pub record Condition : Type 0 where
  pub type : String
  pub status : String
  pub observed_generation : ℕ
  pub last_transition_time : ℕ
  pub reason : String
  pub message : String

-- `apiextensionsv1.JSON`
pub record Json : Type 0 where
  pub raw : List ℕ

-- A pointer that the operator is handed: its address and the object that it points to.
pub record Ref {ℓ} (A : Type ℓ) : Type ℓ where
  pub ptr : ℕ
  pub val : A
