-- ===== src/Pubsub/Tests/Names.antt =====
-- Concrete inputs for the theorems about topic.rs and frame.rs.
use tightbeam_ext.Prelude.{◌≡◌, ◌↔◌, ascii}
use tightbeam_ext.Prelude.Result.{ok}
use tightbeam_ext.Pubsub.Topic.{from_str}
use tightbeam_ext.Pubsub.Topic.Names.{IsName, from_str-ok_iff}
use tightbeam_ext.Pubsub.Tests.{news}

from_str-ok_iff_example :
    (from_str (ascii "news") ≡ ok news) ↔ (IsName (ascii "news") × (news.name ≡ ascii "news"))
from_str-ok_iff_example = from_str-ok_iff (ascii "news") news
