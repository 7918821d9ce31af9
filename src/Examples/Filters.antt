-- ===== src/Examples/Filters.antt =====
-- The theorems about `MQTTHelperTopicMatching` at concrete filters and topics.
use plhr_firmware.Common.{ℕ, ◌≡◌, List, [], ◌∷◌, some, arith}
use plhr_firmware.Mqtt.Topics.{Match, topic_matching}
use plhr_firmware.Mqtt.Topics.Levels.{joined, match_levels, topic_matching_levels}
use plhr_firmware.Mqtt.Topics.Loop.{topic_matching_total}

-- `ab`, and `ab/+/d` and `ab/c/d` by levels.
abbrev text_ab : List ℕ
text_ab = 97 ∷ 98 ∷ []

topic_matching_total_example : (m : Match) × (topic_matching text_ab text_ab ≡ some m)
topic_matching_total_example = topic_matching_total text_ab text_ab

topic_matching_levels_example :
    topic_matching
      (joined text_ab ((43 ∷ []) ∷ (100 ∷ []) ∷ []))
      (joined text_ab ((99 ∷ []) ∷ (100 ∷ []) ∷ []))
    ≡ some
        (match_levels text_ab ((43 ∷ []) ∷ (100 ∷ []) ∷ []) (text_ab ∷ (99 ∷ []) ∷ (100 ∷ []) ∷ []))
topic_matching_levels_example =
    topic_matching_levels text_ab text_ab ((43 ∷ []) ∷ (100 ∷ []) ∷ [])
      ((99 ∷ []) ∷ (100 ∷ []) ∷ [])
      (
        (omega arith, omega arith, (omega arith, omega arith, tt)),
        ((omega arith, omega arith, tt), ((omega arith, omega arith, tt), tt)),
      )
      (
        (omega arith, omega arith, (omega arith, omega arith, tt)),
        ((omega arith, omega arith, tt), ((omega arith, omega arith, tt), tt)),
      )
