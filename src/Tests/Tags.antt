-- ===== src/Tests/Tags.antt =====
-- The theorems on tagged words, with nodes aligned to 8 bytes.
use skippy_rs.Base.{◌≡◌, ok, arith, refl}
use skippy_rs.Node.{right}
use skippy_rs.Store.{link_to}
use skippy_rs.Tagged.{compose_raw, compare_exchange_with_tag}
use skippy_rs.Tagged.Words.{compare_exchange_with_tag_lem}

compare_exchange_with_tag_lem_example :
    compare_exchange_with_tag 8 4096 0 8192 1 (compose_raw 8 4096 0)
    ≡ ok (right (link_to 4096 0)) (compose_raw 8 8192 1)
compare_exchange_with_tag_lem_example =
    compare_exchange_with_tag_lem 3 (omega arith) 4096 0 (omega arith, refl) (omega arith) 4096 0
      8192 1 (omega arith, refl) (omega arith)
