-- ===== src/Tests/Images.antt =====
-- The theorems on the names of images and templates, at a few names.
use Prim.Native.String.{◌++◌ as text_append}
use e2b_local.Prelude.{◌≡◌, ◌≢◌, refl, string_eq}
use e2b_local.Images.{
  short_docker_image_name, docker_template_name, docker_image_tag, local_template_id,
}
use e2b_local.Images.Laws.{short_name-join}

tag_there : docker_image_tag "ghcr.io:443/team/base:v1" ≡ "v1"
unfolding docker_image_tag
tag_there = refl

no_tag : docker_image_tag "ghcr.io:443/team/base" ≡ ""
unfolding docker_image_tag
no_tag = refl

tag-named : docker_image_tag "ghcr.io:443/team/base:v1" ≢ ""
tag-named h = absurd (cc (tag_there, h))

short_name-join_example :
    short_docker_image_name "ghcr.io:443/team/base:v1"
    ≡ text_append
        (docker_template_name "ghcr.io:443/team/base:v1")
        (text_append ":" (docker_image_tag "ghcr.io:443/team/base:v1"))
short_name-join_example = short_name-join "ghcr.io:443/team/base:v1" tag-named

my_id : local_template_id "template-0" " My App! " ≡ "my-app"
unfolding local_template_id
my_id = refl
