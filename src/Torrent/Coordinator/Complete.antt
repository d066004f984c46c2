-- ===== src/Torrent/Coordinator/Complete.antt =====
-- A download with genuine results and a working system, from its beginning to its success.
use amish.Base.{ℕ, ◌<◌, ◌≡◌, ◌≢◌, refl, ap, true, false, List, Bytes, length, get_or, map, All}
use amish.Metainfo.{Info, num_pieces}
use amish.Torrent.Endgame.{contains}
use amish.Torrent.Writer.{System, Writer}
use amish.Torrent.Writer.Layout.{Extent, entry_of}
use amish.Torrent.Writer.Plan.{Works}
use amish.Torrent.Writer.Flat.{byte_at}
use amish.Torrent.Coordinator.{
  Event, Download, Outcome, succeeded, all_failed, crashed, write_error, begin, download_pieces,
}
use amish.Torrent.Coordinator.Content.{IsTorrent, IsGenuine}
use amish.Torrent.Coordinator.Stored.{
  Holds, none-IsStored, collect-HoldsFinally, download_pieces_stored,
}
use amish.Torrent.Coordinator.Arrived.{arrived, download_pieces-arrived}

-- The metadata describes a content: its length, below 2^63, in pieces of `p` bytes that reach the end
-- and no further, and in files of different paths. If no call of the system fails, the writer
-- starts open on these files, every result that arrives without an error is the piece of its index,
-- and such a result arrives for every piece, in whatever order, and whatever else the workers do,
-- then the download succeeds, and each byte of the content stands in its file at its place, where a
-- byte that a file does not have counts as zero. Of what a file holds behind the size that the
-- metadata gives it, nothing is said.
pub download_pieces_complete :
    (sys : System) (info : Info) (es : List Extent) (p : ℕ) (content : Bytes) (events : List Event)
    (w : Writer) (g : ℕ)
    → Works sys
    → IsTorrent info es p content
    → w.info ≡ info
    → w.files ≡ map entry_of es
    → w.closed ≡ false
    → All (IsGenuine info content p) events
    → ((j : ℕ) → j < num_pieces info → contains (arrived events) j ≡ true)
    → g < length content
    → (st : Download) × (download_pieces sys info events w ≡ (succeeded, st))
      × (byte_at st.writer.disk es g ≡ get_or content g 0)
unfolding download_pieces
download_pieces_complete sys info es p content events w g works t same_info same_files usable
      genuine all lt =
    let x = download_pieces sys info events w in
    let ends : download_pieces sys info events w ≡ (succeeded, x.1) =
      ap (λ o. (o, x.1))
        (success x.0 x.1
          (collect-HoldsFinally sys works info es p content t events (begin info w)
            (none-IsStored info es p content w same_info same_files usable) genuine)
          (download_pieces-arrived sys info events w all)) in
    (
      x.1,
      ends,
      download_pieces_stored sys info es p content events w x.1 g works t same_info same_files
          usable genuine ends lt,
    )
  where
    success :
        (o : Outcome) (st : Download)
        → Holds sys works info es p content t o st
        → o ≢ all_failed
        → o ≡ succeeded
    success succeeded st h ne = refl
    success all_failed st h ne = absurd (ne refl)
    success crashed st h ne = absurd h
    success (write_error e) st h ne = absurd h
