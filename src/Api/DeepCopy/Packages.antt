-- ===== src/Api/DeepCopy/Packages.antt =====
-- What the copied types take from other packages: `metav1.ObjectMeta`, `ListMeta`, `Condition` and
-- `Time`, and `apiextensionsv1.JSON`, each with its own `DeepCopyInto`.
use account_operator.Base.{String, Option}
use account_operator.Base.Dict.{Dict}
use account_operator.Meta.{Ref}
use account_operator.Api.AccountInfo.{ClientInfo}
use account_operator.Api.DeepCopy.Alloc.Copied.{Copying, Lawful}
use account_operator.Api.DeepCopy.Layout.{Shape}

pub record Packages : Type 1 where
  -- the types in memory
  pub ObjectMeta : Type 0
  pub ListMeta : Type 0
  pub Json : Type 0
  pub Condition : Type 0
  pub Time : Type 0
  -- what they stand for
  pub ObjectMetaValue : Type 0
  pub ListMetaValue : Type 0
  pub JsonValue : Type 0
  pub ConditionValue : Type 0
  pub TimeValue : Type 0
  pub object_meta : Copying ObjectMeta ObjectMetaValue
  pub list_meta : Copying ListMeta ListMetaValue
  pub json : Copying Json JsonValue
  pub condition : Copying Condition ConditionValue
  pub time : Copying Time TimeValue

-- The documented behaviour of those methods: each makes a deep copy.
pub record PackagesLaws (P : Packages) : Type 0 where
  pub object_meta : Lawful P.object_meta
  pub list_meta : Lawful P.list_meta
  pub json : Lawful P.json
  pub condition : Lawful P.condition
  pub time : Lawful P.time

module _ (P : Packages) where
  abbrev pub memory : Shape
  memory = record {
    Pointer = Ref;
    Clients = Dict ClientInfo;
    ObjectMeta = P.ObjectMeta;
    ListMeta = P.ListMeta;
    Json = P.Json;
    Condition = P.Condition;
    Time = P.Time;
  }

  -- A map stands for what its keys are mapped to.
  abbrev pub values : Shape
  values = record {
    Pointer = λ A. A;
    Clients = String → Option ClientInfo;
    ObjectMeta = P.ObjectMetaValue;
    ListMeta = P.ListMetaValue;
    Json = P.JsonValue;
    Condition = P.ConditionValue;
    Time = P.TimeValue;
  }
