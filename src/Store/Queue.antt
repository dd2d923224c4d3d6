-- ===== src/Store/Queue.antt =====
-- The claim order of the download queue: sortDownloadQueue of internal/store/downloads.go.
pub mod Order
use iplayer_arr.Prelude.{List, Bool, ltb, ◌==◌, text_eq, text_lt, not, if◌then◌else◌}
use iplayer_arr.Prelude.Sort.{sort}
use iplayer_arr.Store.Types.{Download}

-- The comparison that sort.Slice is given.
unfoldable pub queue_less : Download → Download → Bool
queue_less a b =
    if not (a.priority == b.priority)
    then ltb b.priority a.priority
    else if not (text_eq a.show_name b.show_name)
    then text_lt a.show_name b.show_name
    else if not (a.season == b.season)
    then ltb a.season b.season
    else if not (a.episode == b.episode)
    then ltb a.episode b.episode
    else if not (text_eq a.air_date b.air_date)
    then text_lt a.air_date b.air_date
    else if not (a.created_at == b.created_at)
    then ltb a.created_at b.created_at
    else text_lt a.id b.id

unfoldable pub sort_queue : List Download → List Download
sort_queue = sort queue_less
