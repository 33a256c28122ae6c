-- ===== src/Tests/Declared.antt =====
-- The declaration of a tree with one context and an exported kernel of its own.
use tesser_build.Prelude.{
  str, ◌≡◌, refl, [], ◌∷◌, list_eq, nat_eq, list_ord, nat_ord, ok, some, none,
}
use tesser_build.Prelude.Lists.{is_empty}
use tesser_build.Checks.Violations.{Violation}
use tesser_build.Checks.Declaration.{violations}
use tesser_build.Checks.Declaration.Spec.{
  DeclarationSpec, Declaration, declaration, declared_app, declared_missing, declared_unreadable,
  kernel_package, shell_packages, tesser, roles, domain_stdlib,
}
use tesser_build.Checks.Declaration.Laws.{violations_empty, is_sound}

abbrev declared : Declaration
declared = record {
  declared = record { value = str "app" };
  exports = record { items = str "money" ∷ [] };
  export = some (record { value = str "money" });
  imports = record { items = [] };
  stdlib = record { items = str "hashlib" ∷ [] };
  pure_stdlib = record { items = str "hashlib" ∷ [] };
  nested = record { items = [] };
  symlinked = record { items = [] };
  module_names = record { items = str "money.amount" ∷ str "shop.domain.order" ∷ [] };
  package_names = record { items = str "money" ∷ str "shop" ∷ [] };
}

abbrev spec : DeclarationSpec
spec = record {
  declared = str "app";
  exports = str "money" ∷ [];
  imports = [];
  stdlib = str "hashlib" ∷ [];
  pure_stdlib = str "hashlib" ∷ [];
  nested = [];
  symlinked = [];
  module_names = str "money.amount" ∷ str "shop.domain.order" ∷ [];
  package_names = str "money" ∷ str "shop" ∷ [];
}

made : declaration spec ≡ ok declared
unfolding declaration str list_eq nat_eq list_ord nat_ord
made = refl

no_findings : violations declared ≡ ok []
unfolding violations str list_eq nat_eq list_ord nat_ord declared_app declared_missing
    declared_unreadable kernel_package shell_packages tesser domain_stdlib roles
no_findings = refl

violations_empty_example : is_empty {A = Violation} [] ≡ is_sound spec.exports declared
violations_empty_example = violations_empty spec made no_findings

-- The same export line twice counts as one name, and it is then not asked whether it may be exported.
abbrev twice_spec : DeclarationSpec
twice_spec = record spec { exports = str "srv" ∷ str "srv" ∷ [] }

abbrev twice_declared : Declaration
twice_declared = record declared { exports = record { items = str "srv" ∷ [] }; export = none }

twice_made : declaration twice_spec ≡ ok twice_declared
unfolding declaration str list_eq nat_eq list_ord nat_ord
twice_made = refl

nothing_found : violations twice_declared ≡ ok []
unfolding violations str list_eq nat_eq list_ord nat_ord declared_app declared_missing
    declared_unreadable kernel_package shell_packages tesser domain_stdlib roles
nothing_found = refl
