-- ===== src/Operator/Root/Init.antt =====
-- How the initialization of the program ends.
use account_operator.Base.{
  ◌≡◌, refl, ap, ◌⊎◌, inl, inr, Option, none, some, List, [], ◌∷◌, ◌++◌, map, All, arith,
  Option-cases,
}
use account_operator.Api.Scheme.{Kind, scheme_builder}
use account_operator.Config.{new_operator_config}
use account_operator.Config.Flags.{add_flags}
use account_operator.Operator.Root.{
  Group, RootLibraries, Step, add_to_scheme, add_command, add_common_flags, add_operator_flags,
  on_initialize, must_add, init, own, kcp_apis, kcp_core, kcp_tenancy,
}

module _ (lib : RootLibraries) where
  abbrev Groups : Type 0
  Groups = List (Group lib.builder.Builder)

  abbrev pub Addable : Group lib.builder.Builder → Type 0
  Addable g = lib.add_to_scheme g ≡ none

  -- The first group that cannot be added, with those before and after it. Those before have been
  -- added, this one was tried, and nothing else is done.
  pub record Stopped (gs : Groups) (run : Option lib.E × List (Step lib)) : Type 0 where
    pub before : Groups
    pub group : Group lib.builder.Builder
    pub after : Groups
    pub split : gs ≡ before ++ (group ∷ after)
    pub addable : All Addable before
    pub error : lib.E
    pub refused : lib.add_to_scheme group ≡ some error
    pub panics : run.0 ≡ some error
    pub steps : run.1 ≡ map add_to_scheme before ++ (add_to_scheme group ∷ [])

  pub record Complete (gs : Groups) (last : List (Step lib)) (run : Option lib.E × List (Step lib))
      : Type 0 where
    pub addable : All Addable gs
    pub goes : run.0 ≡ none
    pub steps : run.1 ≡ map add_to_scheme gs ++ last

  must_add-cases :
      (gs : Groups) (last : List (Step lib))
      → Complete gs last (must_add lib gs last) ⊎ Stopped gs (must_add lib gs last)
  must_add-cases [] last = inl (record { addable = tt; goes = refl; steps = refl })
  must_add-cases (g ∷ gs) last = elim (Option-cases (lib.add_to_scheme g)) [
    | inr (e, h) ↦ inr (record {
      before = [];
      group = g;
      after = gs;
      split = refl;
      addable = tt;
      error = e;
      refused = h;
      panics = rw (h, must_add) refl;
      steps = rw (h, must_add) refl;
    })
    | inl h ↦ elim (must_add-cases gs last) [
      | inl c ↦ inl (record {
        addable = (h, c.addable);
        goes = ground (arith, h, c.goes);
        steps = ground (arith, h, c.steps);
      })
      | inr p ↦ inr (record {
        before = g ∷ p.before;
        group = p.group;
        after = p.after;
        split = ap (λ xs. g ∷ xs) p.split;
        addable = (h, p.addable);
        error = p.error;
        refused = p.refused;
        panics = ground (arith, h, p.panics);
        steps = ground (arith, h, p.steps);
      })
    ]
  ]

  -- The four API groups: the operator's, of which the kinds of AccountInfos and of accounts are
  -- registered, and three of kcp.
  abbrev pub four_groups : Groups
  four_groups =
      own (
        lib.builder.register (Kind.account ∷ Kind.account_list ∷ []) (
          lib.builder.register (Kind.account_info ∷ Kind.account_info_list ∷ []) (
            lib.builder.new_builder
              (record { group = "core.platform-mesh.io"; version = "v1alpha1" }))))
      ∷ kcp_apis
      ∷ kcp_core
      ∷ kcp_tenancy
      ∷ []

  abbrev pub four_registrations : List (Step lib)
  four_registrations =
      add_command (record { usage = "operator"; short = "operator to reconcile Accounts" })
      ∷ add_common_flags lib.new_default_config
      ∷ add_operator_flags (add_flags new_operator_config)
      ∷ on_initialize
      ∷ []

  -- The initialization adds four API groups to the scheme, in this order: the operator's, of the
  -- version "v1alpha1" of "core.platform-mesh.io", with the kinds Account, AccountList, AccountInfo
  -- and AccountInfoList, and then those of kcp's apis, core and tenancy. It then registers the
  -- command "operator", the flags of both commands, the operator's with the default settings, and
  -- last what cobra has to call. Or one of the groups cannot be added: then those before it have
  -- been added, it panics with the error of this group, and has registered nothing.
  pub init_ends :
      Complete four_groups four_registrations (init lib) ⊎ Stopped four_groups (init lib)
  unfolding init scheme_builder
  init_ends = must_add-cases four_groups four_registrations
