-- ===== src/Apply/Impersonate.antt =====
-- internal/apply/impersonate.go: the identity under which apply and prune act.
use poc_controller.Prelude.{
  String, Bool, true, false, Option, none, some, List, [], ◌∷◌, ◌^^◌, Error, Result, ok, err, wrap,
  not_found, forbidden,
}

pub record ImpersonationConfig : Type 0 where
  pub user_name : String
  pub groups : List String

-- buildImpersonationConfig
unfoldable pub build_impersonation_config : String → String → ImpersonationConfig
build_impersonation_config namespace sa_name = record {
  user_name = "system:serviceaccount:" ^^ namespace ^^ ":" ^^ sa_name;
  groups =
      "system:serviceaccounts"
      ∷ ("system:serviceaccounts:" ^^ namespace)
      ∷ "system:authenticated"
      ∷ [];
}

-- apierrors.IsNotFound and IsForbidden: the first status error of the chain decides.
abbrev pub is_not_found : Error → Bool
is_not_found e = elim e.status [ some not_found ↦ true | _ ↦ false ]

abbrev pub is_forbidden : Error → Bool
is_forbidden e = elim e.status [ some forbidden ↦ true | _ ↦ false ]

-- IsServiceAccountNotFound
unfoldable pub is_service_account_not_found : Error → Bool
is_service_account_not_found e = is_not_found e

-- NewImpersonatedClient: `read_sa` is the uncached reader's answer about the ServiceAccount, and
-- `new_client` client.New with the impersonation set on a copy of the configuration.
unfoldable pub new_impersonated_client :
    {Client : Type 0}
    → (String → String → Option Error)
    → (ImpersonationConfig → Result Client)
    → String
    → String
    → Result Client
unfolding build_impersonation_config
new_impersonated_client read_sa new_client namespace sa_name = elim (read_sa namespace sa_name) [
  | some e ↦ elim (is_not_found e) [
    | true ↦ err (wrap ("serviceAccount " ^^ namespace ^^ "/" ^^ sa_name ^^ " not found: ") e)
    | false ↦ err (wrap ("checking serviceAccount " ^^ namespace ^^ "/" ^^ sa_name ^^ ": ") e)
  ]
  | none ↦ elim (new_client (build_impersonation_config namespace sa_name)) [
    | err e ↦
        err (wrap ("building impersonated client for " ^^ namespace ^^ "/" ^^ sa_name ^^ ": ") e)
    | ok c ↦ ok c
  ]
]
