-- ===== src/Labrpc/Server.antt =====
-- src/labrpc/labrpc.go: a server's services, and how a request finds its method. `split` stands for
-- the cut of "Raft.AppendEntries" at its last dot (strings.LastIndex), and a method for its call by
-- reflection between gob's decoding of the arguments and encoding of the reply. `none` is
-- log.Fatalf.
use mit_6_5824_lab.Prelude.{
  ◌==◌, if◌then◌else◌, Bool-cases, Option-cases, lookup, insert, Dict, lookup-insert, ℕ, ◌+◌,
  String, ◌≡◌, refl, ◌⊎◌, inl, inr, Bool, false, not, ◌||◌, Option, none, some, List, [], ◌∷◌,
  arith, eq_iff, string_eq,
}

-- What MakeService sees of a method of the receiver.
pub record Method : Type 0 where
  pub name : String
  pub exported : Bool
  pub num_in : ℕ
  pub reply_is_ptr : Bool
  pub num_out : ℕ
  pub run : List ℕ → List ℕ

pub record Service : Type 0 where
  pub name : String
  pub methods : Dict String Method

pub record Server : Type 0 where
  pub services : Dict String Service
  pub count : ℕ

-- The test in MakeService, of a method that is not suitable.
unfoldable pub unsuitable : Method → Bool
unsuitable m = not m.exported || not (m.num_in == 3) || not m.reply_is_ptr || not (m.num_out == 0)

-- The loop of MakeService over the methods.
unfoldable pub suitable_methods : Dict String Method → List Method → Dict String Method
unfolding unsuitable
suitable_methods methods [] = methods
suitable_methods methods (m ∷ ms) =
    suitable_methods (if unsuitable m then methods else insert m.name m methods) ms

-- MakeService
unfoldable pub make_service : String → List Method → Service
unfolding suitable_methods
make_service name ms = record { name = name; methods = suitable_methods [] ms }

-- MakeServer
abbrev pub make_server : Server
make_server = record { services = []; count = 0 }

-- AddService
unfoldable pub add_service : Service → Server → Server
add_service svc rs = record rs { services = insert svc.name svc rs.services }

-- Service.dispatch
unfoldable pub dispatch_method : Service → String → List ℕ → Option (List ℕ)
dispatch_method svc methname args = elim (lookup methname svc.methods) [
  | none ↦ none
  | some m ↦ some (m.run args)
]

-- Server.dispatch: the count goes up first.
unfoldable pub dispatch :
    (String → String × String) → Server → String → List ℕ → Server × Option (List ℕ)
unfolding dispatch_method
dispatch split rs svc_meth args =
    let (service_name, method_name) = split svc_meth in
    let rs' : Server = record rs { count = rs.count + 1 } in
    elim (lookup service_name rs.services) [
      | none ↦ (rs', none)
      | some svc ↦ (rs', dispatch_method svc method_name args)
    ]

lookup-suitable :
    (k : String) (methods : Dict String Method) (ms : List Method) (m : Method)
    → lookup k (suitable_methods methods ms) ≡ some m
    → (lookup k methods ≡ some m) ⊎ ((unsuitable m ≡ false) × (m.name ≡ k))
unfolding suitable_methods
lookup-suitable k methods [] m h = inl h
lookup-suitable k methods (x ∷ ms) m h = elim (Bool-cases (unsuitable x)) [
  | inl bad ↦ lookup-suitable k methods ms m (ground arith)
  | inr good ↦ elim (lookup-suitable k (insert x.name x methods) ms m (ground arith)) [
    | inl there ↦ ground (arith, lookup-insert x.name k x methods, eq_iff x.name k)
    | inr found ↦ inr found
  ]
]

-- A reply of a server that got its services from MakeService comes from a method of the service that
-- the request names: the one of that name among the suitable ones, that is, exported, with three
-- inputs of which the last is a pointer, and with no result. Each request is counted.
pub dispatch_sound :
    (split : String → String × String) (rs : Server) (name svc_meth : String) (ms : List Method)
    (args reply : List ℕ)
    → (split svc_meth).0 ≡ name
    → (dispatch split (add_service (make_service name ms) rs) svc_meth args).1 ≡ some reply
    → ((m : Method) × (unsuitable m ≡ false) × (m.name ≡ (split svc_meth).1) × (reply ≡ m.run args))
      × ((dispatch split (add_service (make_service name ms) rs) svc_meth args).0.count
          ≡ rs.count + 1)
unfolding dispatch add_service
dispatch_sound split rs name svc_meth ms args reply at h =
    let svc = make_service name ms in
    let named : svc.name ≡ name = unfold make_service in refl in
    let there : lookup (split svc_meth).0 (insert svc.name svc rs.services) ≡ some svc = ground (
      arith,
      lookup-insert svc.name (split svc_meth).0 svc rs.services,
      eq_iff svc.name (split svc_meth).0,
    ) in
    elim (Option-cases (lookup (split svc_meth).1 svc.methods)) [
      | inl missing ↦ absurd (ground arith)
      | inr (m, e) ↦ elim (lookup-suitable (split svc_meth).1 [] ms m (unfold make_service in e)) [
        | inl stray ↦ absurd (unfold lookup in cc)
        | inr good ↦ ((m, good.0, good.1, ground arith), ground arith)
      ]
    ]
