-- ===== src/PortPolicy/Tests.antt =====
-- Compose files that publish concrete ports.
use remote_worktree_runner.PortPolicy.{shaped, ComposeConfig, Binding, Docker}
use remote_worktree_runner.Prelude.{none, some, List, [], ◌∷◌, Text, codes, ok}

abbrev project : Text
project = codes "trie-center-1"

abbrev config : ComposeConfig
config = shaped (
    (codes "web", shaped (shaped (shaped (record { published = some 8080; protocol = none }) ∷ [])))
    ∷ [])

abbrev running : List Binding
running = record { number = 8080; protocol = codes "tcp"; owner = project } ∷ []

abbrev docker : Docker
docker = record { config = λ options. ok config; running = running }

abbrev argv : List Text
argv = codes "compose" ∷ codes "up" ∷ []
