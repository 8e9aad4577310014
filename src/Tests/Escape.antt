-- ===== src/Tests/Escape.antt =====
-- The theorems about the escape processor of src/client.rs at concrete input.
use ttyleport.Prelude.{◌++◌, map, codes, ◌≡◌, refl}
use ttyleport.Client.Escape.{after_newline, normal, process}
use ttyleport.Client.Escape.Stream.{byte, outputs, meaning, process-meaning}
use ttyleport.Client.Escape.Chunks.{detaches, keys, process-append, process-keys}

process-meaning_example :
    ((process normal (codes "a\n~?")).0 ≡ (meaning normal (codes "a\n~?")).0)
    × (outputs (process normal (codes "a\n~?")).1 ≡ (meaning normal (codes "a\n~?")).1)
process-meaning_example = process-meaning normal (codes "a\n~?")

process-append_example :
    let (mid, first) = process normal (codes "ls\n~") in
    let (end, second) = process mid (codes "?x") in
    ((process normal (codes "ls\n~?x")).0 ≡ end)
    × (outputs (process normal (codes "ls\n~?x")).1 ≡ outputs first ++ outputs second)
unfolding detaches
process-append_example = process-append normal (codes "ls\n~") (codes "?x") refl

process-keys_example :
    outputs (process after_newline (keys after_newline (codes "~.\n~"))).1
    ≡ map byte (codes "~.\n~")
process-keys_example = process-keys after_newline (codes "~.\n~") (cc)
