-- ===== src/FaultInjection/Tests.antt =====
-- Generators that count their draws: one hits on every even number, the other never.
use sniper.Base.{ℕ, ◌+◌, ◌%◌, ◌≡◌, refl, false, List, [], ◌∷◌, ◌==◌}
use sniper.MagicServer.{MagicServer}
use sniper.MagicServer
use sniper.MagicServer.{add_approx}
use sniper.MagicServer.Registry.{IsRegistry, create-IsRegistry, add_approx-IsRegistry}
use sniper.FaultInjection.{Rng, Injector, random, write_flips, pre_read, post_write}
use sniper.FaultInjection.Isolation.{KeepsExact, injector-KeepsExact}

abbrev every_other : Rng
every_other = record { Gen = ℕ; draw = λ g. (g % 2 == 0, g + 1) }

abbrev no_hits : Rng
no_hits = record { Gen = ℕ; draw = λ g. (false, g + 1) }

abbrev seeded : Injector every_other
seeded = random (record { gen_r = 0; gen_h = 1; gen_w = 2; gen_r_2 = 3; gen_h_2 = 4; gen_w_2 = 5 })

abbrev harmless : Injector no_hits
harmless =
    random (record { gen_r = 0; gen_h = 1; gen_w = 2; gen_r_2 = 3; gen_h_2 = 4; gen_w_2 = 5 })

abbrev server : MagicServer
server = (add_approx (MagicServer.create 0 0) 65 1).0

server-IsRegistry : IsRegistry server
server-IsRegistry = add_approx-IsRegistry (MagicServer.create 0 0) (create-IsRegistry 0 0) 65 1

abbrev line : List ℕ
line = 0 ∷ 0 ∷ 0 ∷ 0 ∷ []

-- Each even bit is flipped.
written : (write_flips every_other 8 (0, 0)).0 ≡ 85
unfolding write_flips
written = refl

injector-KeepsExact_example :
    KeepsExact every_other server 64 line (pre_read every_other server 64 4 seeded line).0
    × KeepsExact every_other server 64 line (post_write every_other server 64 4 seeded line).0
injector-KeepsExact_example = injector-KeepsExact every_other server 64 4 seeded line
