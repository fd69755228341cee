-- ===== src/Examples/Coordinator.antt =====
-- Partitions of a topic given to the members of a group.
use mini_kafka.Prelude.{◌≡◌, List, [], ◌∷◌, arith, str_eq, str_eq_iff}
use mini_kafka.Prelude.Int.{pos}
use mini_kafka.Protocol.Stream.{Bytes}
use mini_kafka.Coordinator.Assignor.{numbers, range_of, sort_strings}
use mini_kafka.Coordinator.Assignor.Order.{AreDistinct}
use mini_kafka.Coordinator.Assignor.Range.{concat_of, concat_of-range_of}

abbrev three : List Bytes
three = (99 ∷ []) ∷ (97 ∷ []) ∷ (98 ∷ []) ∷ []

three-AreDistinct : AreDistinct three
unfolding str_eq
three-AreDistinct = (
  (
    ground (arith, str_eq_iff (99 ∷ []) (97 ∷ [])),
    (ground (arith, str_eq_iff (99 ∷ []) (98 ∷ [])), tt),
  ),
  ((ground (arith, str_eq_iff (97 ∷ []) (98 ∷ [])), tt), (tt, tt)),
)

concat_of-range_of_example :
    concat_of (range_of (sort_strings three) (pos 8)) (sort_strings three) ≡ numbers 0 8
concat_of-range_of_example = concat_of-range_of three 8 three-AreDistinct (omega arith)
