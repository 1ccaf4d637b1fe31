-- ===== src/Plugins/Cloud.antt =====
-- plugins/aws/aws.go, plugins/azure/azure.go, plugins/gcp/gcp.go: the parsers of the documents that
-- the cloud providers publish. `encoding/json` is a parameter: what a reader decodes to.
pub mod Aws
pub mod Azure
pub mod Gcp
