-- ===== src/Tests/Settings.antt =====
-- The theorem on the settings at the defaults, and the texts that settings are read from.
use double_entry_ledger_engi.Api.Texts.{equal_lower}
use double_entry_ledger_engi.Domain.Currency.{is_valid}
use double_entry_ledger_engi.Base.{map, none, ◌≡◌, ◌↔◌, ◌∷◌, [], ok, refl}
use double_entry_ledger_engi.Config.{Config, ApiKeyConfig, validate}
use double_entry_ledger_engi.Config.Load.{load, settings, parse_keys, split}
use double_entry_ledger_engi.Config.Whole.{IsAccepted, validate_iff}

keys_test :
    map (λ (k : ApiKeyConfig). k.permissions) (parse_keys (split b';' "k1:n:a:b,c;bad"))
    ≡ ("a:b" ∷ "c" ∷ []) ∷ []
unfolding parse_keys split
keys_test = refl

-- No variable is set.
abbrev defaults : Config
defaults = settings (λ _. "") (λ _. none)

defaults_test : load (λ _. "") (λ _. none) ≡ ok defaults
unfolding load is_valid equal_lower
defaults_test = refl

validate_iff_example : (validate defaults ≡ none) ↔ IsAccepted defaults
validate_iff_example = validate_iff defaults
