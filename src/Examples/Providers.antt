-- ===== src/Examples/Providers.antt =====
-- Providers that fail, come back, limit the rate and lack methods.
use haprovider.Prelude.{ℕ, ◌≡◌, refl, true, List, [], ◌∷◌, ℤ, pos, none, some, Text, text, arith}
use haprovider.Core.Time.{atoi, digits_number}
use haprovider.Rpc.Error.{failure}
use haprovider.Core.Provider.{Provider, fresh_provider}
use haprovider.Core.Provider.Health.{
  Call, unhealthy, healthy, too_many, IsValid, history, history-IsValid,
}

abbrev node : Provider
node = fresh_provider (text "node") (text "http://a") []

abbrev online_node : Provider
online_node = record node { online = true; last_state_change = 1 }

abbrev show : ℤ → Text
show d = []

abbrev calls : List (ℕ × Call)
calls = (3, healthy) ∷ (5, unhealthy (failure [])) ∷ (6, too_many none) ∷ []

fresh-IsValid : IsValid node
fresh-IsValid = ground arith

online-IsValid : IsValid online_node
online-IsValid = ground arith

history-IsValid_example : IsValid (history show node calls)
history-IsValid_example =
    history-IsValid show node calls (omega arith, (omega arith, (omega arith, tt))) fresh-IsValid

abbrev flagged : Provider
flagged = record node { unsupported_methods = (text "getLogs", 5) ∷ [] }

a_minute : atoi (text "60") ≡ some (pos 60)
unfolding atoi digits_number text
a_minute = refl
