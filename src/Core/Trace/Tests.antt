-- ===== src/Core/Trace/Tests.antt =====
-- packages/core/src/trace.ts at concrete inputs.
use intellibiz.Shared.{ℕ, true, false, List, [], ◌∷◌, ◌≡◌, refl, arith}
use intellibiz.Shared.Text.{codes, same_text}
use intellibiz.Core.Trace.{
  hex_from, to_hex, create_trace_id, create_test_trace_id, behind, is_trace_id,
}
use intellibiz.Core.Trace.Chronology.{lt_text, create_trace_id_sorted}

traces : Unit {0}
unfolding hex_from to_hex create_trace_id create_test_trace_id behind is_trace_id same_text
traces = tt

abbrev random : List ℕ
random = 44 ∷ 30 ∷ 45 ∷ 154 ∷ 123 ∷ 60 ∷ 77 ∷ 255 ∷ []

trace_tests :
    (same_text
        (create_trace_id 1764183412623 random)
        (codes "ibiz_trc_019ac1868f8f2c1e2d9a7b3c4dff")
      ≡ true)
    × (same_text (create_test_trace_id (codes "ab")) (codes "ibiz_tst_ab000000000000000000") ≡ true)
    × (is_trace_id (codes "ibiz_tst_019ac1868f8f2c1e2d9a7b3c4dff") ≡ true)
    × (is_trace_id (codes "ibiz_trc_019ac1868f8f2c1e2d9a7b3c4dfg") ≡ false)
unfolding traces
trace_tests = (refl, refl, refl, refl)

create_trace_id_sorted_example :
    lt_text (create_trace_id 1764183412623 random) (create_trace_id 1764183412624 (0 ∷ [])) ≡ true
create_trace_id_sorted_example =
    create_trace_id_sorted 1764183412623 1764183412624 random (0 ∷ []) (omega arith) (omega arith)
