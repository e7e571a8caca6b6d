-- ===== src/Token/Examples.antt =====
-- The token store's theorems at concrete tokens.
use Prim.Native.String.{◌++◌ as append_text}
use mrmi_gateway.Prelude.{pos, ◌+ℤ◌, ltb_ℤ, String, false, none, some, ◌≡◌, ◌==◌, if◌then◌else◌}
use mrmi_gateway.Token.{Store, empty, issue, resolve, evict}
use mrmi_gateway.Token.Laws.{resolve-issue}

abbrev digest : String → String
digest t = append_text "h" t

abbrev issued : Store
issued = (issue digest (some "t1") "chat" "n1" (pos 60) (pos 5) empty).1

resolve-issue_example :
    ((resolve digest "t1" (pos 9) issued).0
      ≡ (if ltb_ℤ (pos 5 +ℤ pos 60) (pos 9) then none else some ("chat", "n1")))
    × ((resolve digest "t1" (pos 9) (evict digest "t1" issued)).0 ≡ none)
    × ((digest "t1" == digest "t2") ≡ false
        → (resolve digest "t2" (pos 9) issued).0 ≡ (resolve digest "t2" (pos 9) empty).0)
resolve-issue_example = resolve-issue digest "t1" "t2" "chat" "n1" (pos 60) (pos 5) (pos 9) empty
