-- ===== src/TemplateRuntime/Tests.antt =====
-- A concrete run of the template runtime's checker (tuxedo-template-runtime/src/lib.rs).
use tuxedo.Base.{List, [], ◌∷◌, ok, arith, ◌≡◌, refl}
use tuxedo.DynamicTyping.Laws.{extract-into_dynamic}
use tuxedo.Money.{coin_data, check_money, spend}
use tuxedo.Money.Spending.{check_money_spend_iff}
use tuxedo.Money.Doubling.{coin}
use tuxedo.Codec.{Codec}
use tuxedo.TemplateRuntime.{OuterVerifier, OuterConstraintChecker, check_outer}
use tuxedo.TemplateRuntime.Confinement.{Confined, type_of, check_outer-Confined}
use tuxedo.Samples.{Storage, empty}
use tuxedo.Samples.Chain.{coins}
use tuxedo.Samples.Outer.{pieces, transactions, outer_chain}
use tuxedo.Samples.Codecs.{lists}
use tuxedo.Types.{Transaction}
use tuxedo.Types.Encoding.{transaction_codec}
use tuxedo.Executive.Inherents.{InherentsFirst}
use tuxedo.Genesis.{build, build_genesis_block}
use tuxedo.TemplateRuntime.Genesis.{development_genesis_transactions, development_genesis-build}

-- Coins of 7 and 5 are spent for one of 10.
spends :
    check_money coins 0 spend (coin coins 0 7 ∷ coin coins 0 5 ∷ []) [] [] (coin coins 0 10 ∷ [])
    ≡ ok 2
spends =
    (check_money_spend_iff coins 0 (coin coins 0 7 ∷ coin coins 0 5 ∷ []) [] []
        (coin coins 0 10 ∷ []) 2).1
      (record {
        nothing_evicted = refl;
        something_consumed = λ e. cc e;
        consumed = 7 ∷ 5 ∷ [];
        created = 10 ∷ [];
        inputs_hold = (
          extract-into_dynamic (coin_data coins 0) (record { value = 7 }),
          (extract-into_dynamic (coin_data coins 0) (record { value = 5 }), tt),
        );
        outputs_hold = (extract-into_dynamic (coin_data coins 0) (record { value = 10 }), tt);
        no_overflow = omega arith;
        created_positive = (omega arith, tt);
        not_more = omega arith;
        burned = refl;
      })

checked :
    check_outer pieces empty
      (OuterConstraintChecker.money spend)
      (coin coins 0 7 ∷ coin coins 0 5 ∷ [])
      []
      []
      (coin coins 0 10 ∷ [])
    ≡ ok (2, empty)
unfolding check_outer
checked = rw spends refl

own_data_example :
    Confined pieces
      (type_of pieces (OuterConstraintChecker.money spend))
      (coin coins 0 7 ∷ coin coins 0 5 ∷ [])
      []
      (coin coins 0 10 ∷ [])
own_data_example =
    check_outer-Confined pieces empty (OuterConstraintChecker.money spend)
      (coin coins 0 7 ∷ coin coins 0 5 ∷ []) [] [] (coin coins 0 10 ∷ []) (2, empty) checked

abbrev list_codec : Codec (List (Transaction OuterVerifier OuterConstraintChecker))
list_codec = lists (transaction_codec transactions)

development_example :
    (txs : List (Transaction OuterVerifier OuterConstraintChecker)) × (t : Storage)
    × (development_genesis_transactions pieces 0 ≡ ok txs)
    × (build outer_chain list_codec empty txs ≡ ok t)
    × ((build_genesis_block outer_chain list_codec t).0.extrinsics ≡ txs)
    × InherentsFirst outer_chain (build_genesis_block outer_chain list_codec t).0.extrinsics
development_example = development_genesis-build pieces 0 outer_chain (λ c. refl) list_codec empty
