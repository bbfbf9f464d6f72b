-- ===== src/Services/Sharing/Tests.antt =====
-- Runs of the sharing service: a reviewed session is widened, shared, opened and closed.
use memoar.Prelude.Lists.{any}
use memoar.Store.Teams.{is_team_member}
use memoar.Store.TransferCopy.{session_content_digest}
use memoar.Store.Sharing.{is_completed}
use memoar.Store.Sharing.{get_review}
use memoar.Prelude.JsMap.{has}
use memoar.Prelude.JsMap.{IsMap}
use memoar.Prelude.Lists.{find}
use memoar.Store.Sharing.{get_share_grant_by_token_hash}
use memoar.Store.Tables.{key}
use memoar.Prelude.JsMap.{get}
use memoar.Store.Sessions.{get_session}
use memoar.Prelude.{◌≡◌, refl, [], ◌∷◌, none, some}
use memoar.Prelude.Str.{codes, ◌==◌}
use memoar.Canonical.{team}
use memoar.Services.{done, failed, not_found}
use memoar.Services.Sharing.{
  complete_review, consume_share, create_link, CreateShareLink, expired, grant_of, Numbers,
  projected, revoke, update_visibility, UpdateVisibility,
}
use memoar.Services.Sharing.Gate.{update_visibility-Widened, Widened}
use memoar.Services.Sharing.Links.{consume_share-create_link, consume_share-revoke}
use memoar.Store.Records.{ShareGrantRecord, viewer}
use memoar.Store.Sharing.{lookup_of}
use memoar.Store.Tables.{MemoryTables}
use memoar.Examples.{ann, crew, session, tables, world}

abbrev numbers : Numbers
numbers = record { offset = λ value. 0 }

abbrev body : CreateShareLink
body = record {
  session_id = codes "s";
  permission = viewer;
  redaction_review_id = codes "r2";
  expires_at = some (codes "9999");
}

abbrev grant : ShareGrantRecord
grant = grant_of world ann body (codes "g") (codes "tok")

abbrev shared : MemoryTables
shared =
    (create_link world ann body (codes "g") (codes "tok")
      (complete_review world numbers ann (codes "r2") (codes "s") tables).0).0

consume_share-create_link_example :
    consume_share world 3 (codes "tok") shared
    ≡ done (projected world (lookup_of grant) session tables, viewer, some (codes "9999"))
unfolding expired get_session get ◌==◌ key get_share_grant_by_token_hash find
consume_share-create_link_example =
    consume_share-create_link world numbers ann body (codes "g") (codes "tok") 3 tables session refl
      refl refl

abbrev granted : MemoryTables
granted = record tables { grants = (codes "a:g", grant) ∷ [] }

consume_share-revoke_example :
    ((revoke ann (codes "g") granted).1 ≡ done tt)
    × (consume_share world 3 (codes "tok") (revoke ann (codes "g") granted).0 ≡ failed not_found)
unfolding key grant_of IsMap has find ◌==◌
consume_share-revoke_example =
    consume_share-revoke world ann (codes "tok") 3 granted grant (refl, tt) (refl, tt) refl refl

abbrev to_team : UpdateVisibility
to_team = record {
  scope = team;
  team_id = some (codes "t");
  org_id = none;
  redaction_review_id = some (codes "r");
}

widened_to_team : (update_visibility world ann (codes "s") to_team tables).1 ≡ done crew
unfolding update_visibility get_session get ◌==◌ key get_review is_completed session_content_digest
    is_team_member any
widened_to_team = refl

update_visibility-Widened_example : Widened world ann (codes "s") to_team tables crew
update_visibility-Widened_example =
    update_visibility-Widened world ann (codes "s") to_team tables crew widened_to_team
