-- ===== src/Text/FilePath/Plain.antt =====
-- A concrete plain name.
use flow_pipe.Prelude.{refl}
use flow_pipe.Text.{Text, codes}
use flow_pipe.Text.FilePath.Laws.{IsPlain, is_plain, is_plain-IsPlain}

abbrev pub jobs : Text
jobs = codes "jobs"

pub jobs-IsPlain : IsPlain jobs
unfolding is_plain
jobs-IsPlain = is_plain-IsPlain jobs refl
